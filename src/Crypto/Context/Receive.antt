-- ===== src/Crypto/Context/Receive.antt =====
-- What `decrypt` does on every path.
use ssh_mobile.Base.{
  ℕ, ◌≡◌, refl, Bool, true, false, arith, Result, ok, err, Bool-cases, inl, inr, if◌then◌else◌, ltb,
  str_eq,
}
use ssh_mobile.Base.Sets.{contains}
use ssh_mobile.Crypto.Types.{Bytes, CryptoError, Primitives, replay_detected}
use ssh_mobile.Crypto.Replay.{ReplayWindow, reserve, as_replay, accept_received}
use ssh_mobile.Crypto.Context.{
  CryptoContext, open_envelope, admit_nonce, decrypt_internal, decrypt, decrypt_for_delivery,
  then_do, is_unavailable, nonce_prefix, epoch_key, env_epoch,
}

-- A nonce that the set does not hold is accepted.
accept_unseen :
    (w : ReplayWindow) (nonce : Bytes)
    → contains w.seen nonce ≡ false
    → (accept_received w nonce).0 ≡ ok tt
unfolding accept_received as_replay reserve
accept_unseen w nonce h = rw h

abbrev pub raise_epoch : CryptoContext → ℕ → CryptoContext
raise_epoch c epoch = if ltb c.receive_epoch epoch then record c { receive_epoch = epoch } else c

-- The context after a message was accepted.
abbrev pub accepted : CryptoContext → Bytes → ℕ → CryptoContext
accepted c nonce epoch =
    raise_epoch (record c { receive_window = (accept_received c.receive_window nonce).1 }) epoch

pub nonce_prefix-root :
    (p : Primitives) (c d : CryptoContext) (info : Bytes) (epoch : ℕ)
    → d.root_key ≡ c.root_key
    → nonce_prefix p d info epoch ≡ nonce_prefix p c info epoch
unfolding nonce_prefix epoch_key
nonce_prefix-root p c d info epoch h = rw h

pub epoch_key-root :
    (p : Primitives) (c d : CryptoContext) (info : Bytes) (epoch : ℕ)
    → d.root_key ≡ c.root_key
    → epoch_key p d info epoch ≡ epoch_key p c info epoch
unfolding epoch_key
epoch_key-root p c d info epoch h = rw h

-- An envelope that opened names an epoch that is kept.
pub open_envelope-epoch :
    (p : Primitives) (c : CryptoContext) (aad env clear nonce : Bytes) (epoch : ℕ)
    → open_envelope p c aad env ≡ ok (clear, nonce, epoch)
    → (env_epoch env ≡ epoch) × (is_unavailable c epoch ≡ false)
unfolding open_envelope
open_envelope-epoch p c aad env clear nonce epoch h = ground arith

-- It opens under any context with the same keys that keeps the epoch.
pub open_envelope-frame :
    (p : Primitives) (c d : CryptoContext) (aad env clear nonce : Bytes) (epoch : ℕ)
    → d.root_key ≡ c.root_key
    → d.rx_info ≡ c.rx_info
    → is_unavailable d epoch ≡ false
    → open_envelope p c aad env ≡ ok (clear, nonce, epoch)
    → open_envelope p d aad env ≡ ok (clear, nonce, epoch)
unfolding open_envelope
open_envelope-frame p c d aad env clear nonce epoch hr hx ha h = ground (
  arith,
  nonce_prefix-root p c d c.rx_info (env_epoch env),
  epoch_key-root p c d c.rx_info (env_epoch env),
)

module _ (p : Primitives) (c : CryptoContext) (aad env : Bytes) where
  pub decrypt_fresh :
      (clear nonce : Bytes) (epoch : ℕ) (allow : Bool)
      → open_envelope p c aad env ≡ ok (clear, nonce, epoch)
      → contains c.receive_window.seen nonce ≡ false
      → decrypt_internal p aad env allow c ≡ (ok clear, accepted c nonce epoch)
  unfolding decrypt_internal admit_nonce
  decrypt_fresh clear nonce epoch allow o n =
      rw (o, decrypt_internal, n, admit_nonce, accept_unseen c.receive_window nonce n)

  pub decrypt_seen :
      (clear nonce : Bytes) (epoch : ℕ)
      → open_envelope p c aad env ≡ ok (clear, nonce, epoch)
      → contains c.receive_window.seen nonce ≡ true
      → (decrypt p aad env c ≡ (err replay_detected, c))
        × (decrypt_for_delivery p aad env c ≡ (ok clear, raise_epoch c epoch))
  unfolding decrypt decrypt_for_delivery decrypt_internal admit_nonce
  decrypt_seen clear nonce epoch o n = (
    rw (o, decrypt, decrypt_internal, n, admit_nonce),
    rw (o, decrypt_for_delivery, decrypt_internal, n, admit_nonce),
  )

  decrypt_closed :
      (e : CryptoError) (allow : Bool)
      → open_envelope p c aad env ≡ err e
      → decrypt_internal p aad env allow c ≡ (err e, c)
  unfolding decrypt_internal
  decrypt_closed e allow o = rw (o, decrypt_internal)

  -- What `decrypt_internal` can do: refuse the envelope, find a replay, or accept a new nonce.
  pub data Outcome (allow : Bool) : Type 0 where
    closed :
        (e : CryptoError)
        → open_envelope p c aad env ≡ err e
        → decrypt_internal p aad env allow c ≡ (err e, c)
        → Outcome allow
    replayed :
        (clear nonce : Bytes) (epoch : ℕ)
        → open_envelope p c aad env ≡ ok (clear, nonce, epoch)
        → contains c.receive_window.seen nonce ≡ true
        → decrypt_internal p aad env allow c
          ≡ (if allow then (ok clear, raise_epoch c epoch) else (err replay_detected, c))
        → Outcome allow
    fresh :
        (clear nonce : Bytes) (epoch : ℕ)
        → open_envelope p c aad env ≡ ok (clear, nonce, epoch)
        → contains c.receive_window.seen nonce ≡ false
        → decrypt_internal p aad env allow c ≡ (ok clear, accepted c nonce epoch)
        → Outcome allow

  to_outcome :
      (allow : Bool) (r : Result CryptoError (Bytes × Bytes × ℕ))
      → open_envelope p c aad env ≡ r
      → Outcome allow
  unfolding decrypt_internal admit_nonce
  to_outcome allow (err e) o = closed e o (decrypt_closed e allow o)
  to_outcome allow (ok (clear, nonce, epoch)) o =
      elim (Bool-cases (contains c.receive_window.seen nonce)) [
        | inl old ↦
            replayed clear nonce epoch o old
              (rw (o, decrypt_internal, old, admit_nonce) (split allow clear epoch))
        | inr new ↦ fresh clear nonce epoch o new (decrypt_fresh clear nonce epoch allow o new)
      ]
    where
      split :
          (b : Bool) (clear : Bytes) (epoch : ℕ)
          → then_do
              (if b then (ok tt, c) else (err replay_detected, c))
              (λ _ c'. (ok clear, raise_epoch c' epoch))
            ≡ (if b then (ok clear, raise_epoch c epoch) else (err replay_detected, c))
      split true clear epoch = refl
      split false clear epoch = refl

  pub decrypt_internal-Outcome : (allow : Bool) → Outcome allow
  decrypt_internal-Outcome allow = to_outcome allow (open_envelope p c aad env) refl

  -- A refused envelope leaves the context as it was.
  pub decrypt-err :
      (allow : Bool) (e : CryptoError) (c' : CryptoContext)
      → decrypt_internal p aad env allow c ≡ (err e, c')
      → c' ≡ c
  decrypt-err allow e c' h = elim (decrypt_internal-Outcome allow) [
    | closed x o r ↦ cc
    | replayed clear nonce epoch o old r ↦ ground arith
    | fresh clear nonce epoch o new r ↦ cc
  ]
