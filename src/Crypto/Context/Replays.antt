-- ===== src/Crypto/Context/Replays.antt =====
-- The receiving side of a context over several envelopes.
use ssh_mobile.Base.{
  ℕ, ◌+◌, ◌≤◌, ◌≡◌, sym, ap, ◌∙◌, Bool, true, false, List, [], ◌∷◌, ◌++◌, ok, err, str_eq, arith,
  length, length-append, drop, drop-append_le, ◌-◌, str_beq_refl,
}
use ssh_mobile.Base.Sets.{contains, recent, contains-append}
use ssh_mobile.Crypto.Types.{Bytes, Primitives, replay_detected}
use ssh_mobile.Crypto.Replay.{ReplayWindow, accept_received}
use ssh_mobile.Crypto.Replay.History.{IsCoherent, accept_received-Accepts}
use ssh_mobile.Crypto.Context.{
  CryptoContext, open_envelope, decrypt_internal, decrypt, decrypt_for_delivery, is_unavailable,
}
use ssh_mobile.Crypto.Context.Receive.{
  closed, replayed, fresh, decrypt_internal-Outcome, open_envelope-epoch, open_envelope-frame,
  accepted, raise_epoch, decrypt_seen,
}

-- The newest entry is among the recent ones.
contains-recent_last :
    (bound : ℕ) (xs : List Bytes) (n : Bytes)
    → 1 ≤ bound
    → contains (recent bound (xs ++ (n ∷ []))) n ≡ true
unfolding contains
contains-recent_last bound xs n h =
    let k : ℕ = length (xs ++ (n ∷ [])) - bound in
    let kept : k ≤ length xs = omega (arith, length-append xs (n ∷ [])) in
    rw (drop-append_le k xs (n ∷ []) kept, contains-append (drop k xs) (n ∷ []) n)
      (ground (arith, str_beq_refl n))

-- After a nonce was accepted, the window holds it.
accept_received-contains :
    (w : ReplayWindow) (n : Bytes)
    → IsCoherent w
    → contains w.order n ≡ false
    → contains (accept_received w n).1.seen n ≡ true
accept_received-contains w n c new =
    let a = accept_received-Accepts w n c in
    let order : (accept_received w n).1.order ≡ recent w.capacity (w.order ++ (n ∷ [])) =
      a.order ∙ rw new in
    a.coherent.window.agree n ∙ rw order (contains-recent_last w.capacity w.order n c.room)

-- Raising the epoch twice is raising it once, and it leaves the window alone.
raise_epoch_twice :
    (c : CryptoContext) (epoch : ℕ)
    → (raise_epoch (raise_epoch c epoch) epoch ≡ raise_epoch c epoch)
      × ((raise_epoch c epoch).receive_window ≡ c.receive_window)
      × ((raise_epoch c epoch).root_key ≡ c.root_key)
      × ((raise_epoch c epoch).rx_info ≡ c.rx_info)
raise_epoch_twice c epoch = ground arith

module _ (p : Primitives) (c : CryptoContext) (aad env : Bytes) where
  -- On success the receive epoch grows by one at most and never falls, and nothing of the
  -- sending side changes.
  pub decrypt-ok_frame :
      (allow : Bool) (clear : Bytes) (c' : CryptoContext)
      → decrypt_internal p aad env allow c ≡ (ok clear, c')
      → (c.receive_epoch ≤ c'.receive_epoch)
        × (c'.receive_epoch ≤ c.receive_epoch + 1)
        × (c'.send_epoch ≡ c.send_epoch)
        × (c'.send_counter ≡ c.send_counter)
        × (c'.send_window ≡ c.send_window)
        × (c'.root_key ≡ c.root_key)
        × (c'.rx_info ≡ c.rx_info)
  decrypt-ok_frame allow clear c' h = elim (decrypt_internal-Outcome p c aad env allow) [
    | closed x o r ↦ cc
    | replayed clear' nonce epoch o old r ↦
        ground (arith, open_envelope-epoch p c aad env clear' nonce epoch o)
    | fresh clear' nonce epoch o new r ↦
        ground (arith, open_envelope-epoch p c aad env clear' nonce epoch o)
  ]

  accepted-is_available :
      (nonce : Bytes) (epoch : ℕ)
      → is_unavailable c epoch ≡ false
      → is_unavailable (accepted c nonce epoch) epoch ≡ false
  accepted-is_available nonce epoch h = ground arith

  accepted_again :
      (clear nonce : Bytes) (epoch : ℕ)
      → IsCoherent c.receive_window
      → open_envelope p c aad env ≡ ok (clear, nonce, epoch)
      → contains c.receive_window.seen nonce ≡ false
      → (decrypt p aad env (accepted c nonce epoch) ≡ (err replay_detected, accepted c nonce epoch))
        × (decrypt_for_delivery p aad env (accepted c nonce epoch)
            ≡ (ok clear, accepted c nonce epoch))
  accepted_again clear nonce epoch w o new =
      let stored : CryptoContext = record c {
        receive_window = (accept_received c.receive_window nonce).1;
      } in
      let (once, window, root, info) = raise_epoch_twice stored epoch in
      let held =
        accept_received-contains c.receive_window nonce w (sym (w.window.agree nonce) ∙ new) in
      let opens =
        open_envelope-frame p c (accepted c nonce epoch) aad env clear nonce epoch root info
          (accepted-is_available nonce epoch
            (open_envelope-epoch p c aad env clear nonce epoch o).1)
          o in
      let (strict, again) =
        decrypt_seen p (accepted c nonce epoch) aad env clear nonce epoch opens (rw window held) in
      (strict, again ∙ ap (λ d. (ok clear, d)) once)

  -- An envelope that `decrypt` accepted is not accepted again: the second time `decrypt` reports
  -- a replay, and `decrypt_for_delivery` returns the same text; neither changes the context.
  pub decrypt_twice :
      (clear : Bytes) (c' : CryptoContext)
      → IsCoherent c.receive_window
      → decrypt p aad env c ≡ (ok clear, c')
      → (decrypt p aad env c' ≡ (err replay_detected, c'))
        × (decrypt_for_delivery p aad env c' ≡ (ok clear, c'))
  unfolding decrypt
  decrypt_twice clear c' w h = elim (decrypt_internal-Outcome p c aad env false) [
    | closed x o r ↦ cc
    | replayed clear' nonce epoch o old r ↦ cc
    | fresh clear' nonce epoch o new r ↦
        let same : c' ≡ accepted c nonce epoch = ground arith in
        let text : clear ≡ clear' = ground arith in
        rw (same, text) (accepted_again clear' nonce epoch w o new)
  ]
