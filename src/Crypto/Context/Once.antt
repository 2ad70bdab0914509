-- ===== src/Crypto/Context/Once.antt =====
-- An envelope that was accepted, while its nonce is in the replay window.
use ssh_mobile.Base.{
  ℕ, suc, ◌+◌, ◌≤◌, ◌<◌, ◌≡◌, refl, sym, ap, ◌∙◌, Bool, true, false, List, [], ◌∷◌, ◌++◌, Result,
  ok, err, Bool-cases, inl, inr, if◌then◌else◌, ltb, str_eq, arith, length,
}
use ssh_mobile.Base.Sets.{
  contains, recent, recent-recent, contains-recent_le, contains-recent_later,
  contains-recent_newest,
}
use ssh_mobile.Crypto.Types.{Bytes, CryptoError, Primitives, replay_detected}
use ssh_mobile.Crypto.Replay.{ReplayWindow, accept_received}
use ssh_mobile.Crypto.Replay.History.{IsCoherent, accept_received-Accepts}
use ssh_mobile.Crypto.Context.{CryptoContext, open_envelope, decrypt_internal, decrypt, env_nonce}
use ssh_mobile.Crypto.Context.Receive.{
  closed, replayed, fresh, decrypt_internal-Outcome, accepted, raise_epoch,
}

-- What the window has accepted, oldest first; the window is the newest part of it.
record Follows (past : List Bytes) (w : ReplayWindow) (capacity : ℕ) : Type 0 where
  coherent : IsCoherent w
  order : w.order ≡ recent capacity past
  size : w.capacity ≡ capacity

accept-Follows :
    (past : List Bytes) (w : ReplayWindow) (capacity : ℕ) (n : Bytes)
    → Follows past w capacity
    → contains w.seen n ≡ false
    → Follows (past ++ (n ∷ [])) (accept_received w n).1 capacity
accept-Follows past w capacity n f unseen =
    let a = accept_received-Accepts w n f.coherent in
    let new : contains w.order n ≡ false = sym (f.coherent.window.agree n) ∙ unseen in
    record {
      coherent = a.coherent;
      order = a.order ∙ rw (new, f.size, f.order) (recent-recent capacity past n);
      size = a.capacity ∙ f.size;
    }

-- The nonce is among the last few that the window has accepted.
record Remembers (few : ℕ) (n : Bytes) (c : CryptoContext) (capacity : ℕ) : Type 0 where
  past : List Bytes
  follows : Follows past c.receive_window capacity
  held : contains (recent few past) n ≡ true

raise_epoch-Remembers :
    (few : ℕ) (n : Bytes) (c : CryptoContext) (capacity epoch : ℕ)
    → Remembers few n c capacity
    → Remembers few n (raise_epoch c epoch) capacity
raise_epoch-Remembers few n c capacity epoch r = elim (Bool-cases (ltb c.receive_epoch epoch)) [
  | inl up ↦ rw up (record { past = r.past; follows = r.follows; held = r.held })
  | inr same ↦ rw same r
]

later-Remembers :
    (few : ℕ) (n : Bytes) (c : CryptoContext) (capacity : ℕ)
    → Remembers few n c capacity
    → Remembers (suc few) n c capacity
later-Remembers few n c capacity r = record {
  past = r.past;
  follows = r.follows;
  held = contains-recent_le few (suc few) r.past n (omega arith) r.held;
}

accepted-Remembers :
    (few : ℕ) (n : Bytes) (c : CryptoContext) (capacity : ℕ) (nonce : Bytes) (epoch : ℕ)
    → Remembers few n c capacity
    → contains c.receive_window.seen nonce ≡ false
    → Remembers (suc few) n (accepted c nonce epoch) capacity
accepted-Remembers few n c capacity nonce epoch r new =
    raise_epoch-Remembers (suc few) n
      (record c { receive_window = (accept_received c.receive_window nonce).1 }) capacity epoch
      (record {
        past = r.past ++ (nonce ∷ []);
        follows = accept-Follows r.past c.receive_window capacity nonce r.follows new;
        held = contains-recent_later few r.past nonce n r.held;
      })

-- Envelopes that arrive: whether a replay is allowed, the associated data and the envelope.
pub record Arrival : Type 0 where
  pub allow_replay : Bool
  pub aad : Bytes
  pub envelope : Bytes

module _ (p : Primitives) where
  unfoldable pub decrypt_each : CryptoContext → List Arrival → CryptoContext
  decrypt_each c [] = c
  decrypt_each c (a ∷ arrivals) =
      decrypt_each (decrypt_internal p a.aad a.envelope a.allow_replay c).1 arrivals

  decrypt_internal-Remembers :
      (few : ℕ) (n : Bytes) (c : CryptoContext) (capacity : ℕ) (aad env : Bytes) (allow : Bool)
      → Remembers few n c capacity
      → Remembers (suc few) n (decrypt_internal p aad env allow c).1 capacity
  decrypt_internal-Remembers few n c capacity aad env allow r =
      elim (decrypt_internal-Outcome p c aad env allow) [
        | closed e o h ↦ rw h (later-Remembers few n c capacity r)
        | replayed clear nonce epoch o old h ↦ rw h (replay allow clear epoch)
        | fresh clear nonce epoch o new h ↦
            rw h (accepted-Remembers few n c capacity nonce epoch r new)
      ]
    where
      replay :
          (b : Bool) (clear : Bytes) (epoch : ℕ)
          → Remembers
              (suc few)
              n
              (if◌then◌else◌ {A = Result CryptoError Bytes × CryptoContext} b
                (ok clear, raise_epoch c epoch)
                (err replay_detected, c)).1
              capacity
      replay true clear epoch =
          raise_epoch-Remembers (suc few) n c capacity epoch (later-Remembers few n c capacity r)
      replay false clear epoch = later-Remembers few n c capacity r

  decrypt_each-Remembers :
      (few many : ℕ) (n : Bytes) (c : CryptoContext) (capacity : ℕ) (arrivals : List Arrival)
      → few + length arrivals ≡ many
      → Remembers few n c capacity
      → Remembers many n (decrypt_each c arrivals) capacity
  unfolding decrypt_each
  decrypt_each-Remembers few many n c capacity [] e r =
      let same : many ≡ few = omega arith in rw same r
  decrypt_each-Remembers few many n c capacity (a ∷ arrivals) e r =
      decrypt_each-Remembers (suc few) many n
        (decrypt_internal p a.aad a.envelope a.allow_replay c).1 capacity arrivals (omega arith)
        (decrypt_internal-Remembers few n c capacity a.aad a.envelope a.allow_replay r)

  open_envelope_nonce :
      (c : CryptoContext) (aad env clear nonce : Bytes) (epoch : ℕ)
      → open_envelope p c aad env ≡ ok (clear, nonce, epoch)
      → env_nonce env ≡ nonce
  unfolding open_envelope
  open_envelope_nonce c aad env clear nonce epoch h = ground arith

  decrypted-Remembers :
      (c c' : CryptoContext) (aad env clear : Bytes)
      → IsCoherent c.receive_window
      → decrypt p aad env c ≡ (ok clear, c')
      → Remembers 1 (env_nonce env) c' c.receive_window.capacity
  unfolding decrypt
  decrypted-Remembers c c' aad env clear w h = elim (decrypt_internal-Outcome p c aad env false) [
    | closed x o r ↦ absurd (cc (h, r))
    | replayed clear' nonce epoch o old r ↦ absurd (cc (h, r))
    | fresh clear' nonce epoch o new r ↦
        let same : c' ≡ accepted c nonce epoch = ground arith in
        let a = accept_received-Accepts c.receive_window nonce w in
        let unseen : contains c.receive_window.order nonce ≡ false =
          sym (w.window.agree nonce) ∙ new in
        rw (same, open_envelope_nonce c aad env clear' nonce epoch o)
          (raise_epoch-Remembers 1 nonce
            (record c { receive_window = (accept_received c.receive_window nonce).1 })
            c.receive_window.capacity epoch
            (record {
              past = c.receive_window.order ++ (nonce ∷ []);
              follows = record {
                coherent = a.coherent;
                order = a.order ∙ rw unseen refl;
                size = a.capacity;
              };
              held = contains-recent_newest 0 c.receive_window.order nonce;
            }))
  ]

  refuse-Remembers :
      (few : ℕ) (c : CryptoContext) (capacity : ℕ) (aad env clear : Bytes)
      → few ≤ capacity
      → Remembers few (env_nonce env) c capacity
      → ¬ ((decrypt p aad env c).0 ≡ ok clear)
  unfolding decrypt
  refuse-Remembers few c capacity aad env clear le r h =
      elim (decrypt_internal-Outcome p c aad env false) [
        | closed x o q ↦ cc (h, q)
        | replayed clear' nonce epoch o old q ↦ cc (h, q)
        | fresh clear' nonce epoch o new q ↦
            let seen =
              r.follows.coherent.window.agree (env_nonce env)
              ∙ ap (λ xs. contains xs (env_nonce env)) r.follows.order
              ∙ contains-recent_le few capacity r.past (env_nonce env) le r.held in
            let named = open_envelope_nonce c aad env clear' nonce epoch o in cc (seen, named, new)
      ]

  -- An envelope that `decrypt` accepted is not accepted by `decrypt` again, with any associated data,
  -- while fewer envelopes arrive in between, for `decrypt` or for `decrypt_for_delivery`, than the
  -- replay window has places.
  pub decrypt_once :
      (c c' : CryptoContext) (aad aad' env clear clear' : Bytes) (arrivals : List Arrival)
      → IsCoherent c.receive_window
      → decrypt p aad env c ≡ (ok clear, c')
      → length arrivals < c.receive_window.capacity
      → ¬ ((decrypt p aad' env (decrypt_each c' arrivals)).0 ≡ ok clear')
  decrypt_once c c' aad aad' env clear clear' arrivals w h few =
      refuse-Remembers (1 + length arrivals) (decrypt_each c' arrivals) c.receive_window.capacity
        aad' env clear' (omega arith)
        (decrypt_each-Remembers 1 (1 + length arrivals) (env_nonce env) c' c.receive_window.capacity
          arrivals refl (decrypted-Remembers c c' aad env clear w h))
