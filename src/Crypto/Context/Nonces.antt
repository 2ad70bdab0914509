-- ===== src/Crypto/Context/Nonces.antt =====
-- The numbering of a sender's envelopes.
use ssh_mobile.Base.{
  ℕ, ◌+◌, ◌<◌, ◌≤◌, ◌≡◌, sym, ap, ◌∙◌, take, drop, ok, arith, ◌⊎◌, length, drop-append,
}
use ssh_mobile.Base.Words.{be64, u64_mod, of_be, of_be-be64}
use ssh_mobile.Crypto.Types.{Bytes, Primitives, IsAead, nonce_prefix_bytes}
use ssh_mobile.Crypto.Context.{CryptoContext, encrypt, env_nonce, env_epoch}
use ssh_mobile.Crypto.Context.Envelope.{env_epoch-envelope, env_nonce-envelope}
use ssh_mobile.Crypto.Context.Send.{encrypt-Sent, Rotated}
use ssh_mobile.Crypto.Context.RoundTrip.{Sent-length_nonce, Rotated-frame}

-- The counter that a nonce carries behind its prefix.
abbrev pub counter_of : Bytes → ℕ
counter_of nonce = of_be (drop 4 nonce)

-- Epoch and counter, compared epoch first.
abbrev pub Before : ℕ → ℕ → ℕ → ℕ → Type 0
Before e n e' n' = (e < e') ⊎ ((e ≡ e') × (n < n'))

place :
    (c d final : CryptoContext) (size : ℕ)
    → Rotated size c d
    → final.send_epoch ≡ d.send_epoch
    → final.send_counter ≡ d.send_counter + 1
    → Before c.send_epoch c.send_counter final.send_epoch final.send_counter
place c d final size h e n = ground arith

chain :
    (c d final : CryptoContext)
    → c.send_epoch ≤ d.send_epoch
    → (c.send_epoch ≡ d.send_epoch → c.send_counter ≤ d.send_counter)
    → final.send_epoch < u64_mod
    → Before d.send_epoch d.send_counter final.send_epoch final.send_counter
    → (final.send_epoch < u64_mod)
      × (c.send_epoch ≤ final.send_epoch)
      × (c.send_epoch ≡ final.send_epoch → c.send_counter ≤ final.send_counter)
chain c d final le same top step = (top, ground arith, λ e. ground arith)

clash :
    (d e f : CryptoContext)
    → d.send_epoch ≤ e.send_epoch
    → (d.send_epoch ≡ e.send_epoch → d.send_counter ≤ e.send_counter)
    → Before e.send_epoch e.send_counter f.send_epoch f.send_counter
    → d.send_epoch ≡ f.send_epoch
    → d.send_counter ≡ f.send_counter
    → ⊥
clash d e f le same step ee nn = ground arith

-- The envelope is numbered at or after the context's place, and the context moves just past it.
pub encrypt-numbered :
    (p : Primitives) (aad text env : Bytes) (c final : CryptoContext)
    → IsAead p
    → encrypt p aad text c ≡ (ok env, final)
    → c.send_epoch < u64_mod
    → (env_epoch env ≡ final.send_epoch)
      × (counter_of (env_nonce env) + 1 ≡ final.send_counter)
      × (final.send_epoch < u64_mod)
      × Before c.send_epoch c.send_counter final.send_epoch final.send_counter
encrypt-numbered p aad text env c final law h small =
    let s = encrypt-Sent p aad text env c final h in
    let (four, twelve) = Sent-length_nonce p aad text env c final law s in
    let (_, _, d_small) = Rotated-frame (length text) c s.d s.rotated in
    let epoch : final.send_epoch ≡ s.d.send_epoch = ap (λ x. x.send_epoch) s.ends in
    let counter : final.send_counter ≡ s.d.send_counter + 1 = ap (λ x. x.send_counter) s.ends in
    let read : counter_of (env_nonce env) ≡ s.d.send_counter =
      ap (λ x. counter_of (env_nonce x)) s.enveloped
      ∙ ap counter_of (env_nonce-envelope s.d.suite s.d.send_epoch s.nonce s.sealed twelve)
      ∙ ap counter_of s.counted
      ∙ ap of_be
          (drop-append (take nonce_prefix_bytes s.prefix) (be64 s.d.send_counter) 4 (sym four))
      ∙ of_be-be64 s.d.send_counter (omega (arith, s.no_wrap)) in
    (
      ap env_epoch s.enveloped
          ∙ env_epoch-envelope s.d.suite s.d.send_epoch s.nonce s.sealed (d_small small)
          ∙ sym epoch,
      omega arith,
      omega arith,
      place c s.d final (length text) s.rotated epoch counter,
    )

-- The contexts that a sender goes through by successful calls of `encrypt`.
pub data Sends (p : Primitives) (c : CryptoContext) : CryptoContext → Type 0 where
  none_sent : Sends p c c
  sent :
      {d : CryptoContext} (aad text env : Bytes) (final : CryptoContext)
      → Sends p c d
      → encrypt p aad text d ≡ (ok env, final)
      → Sends p c final

Sends-ordered :
    (p : Primitives) {c d : CryptoContext}
    → IsAead p
    → c.send_epoch < u64_mod
    → Sends p c d
    → (d.send_epoch < u64_mod)
      × (c.send_epoch ≤ d.send_epoch)
      × (c.send_epoch ≡ d.send_epoch → c.send_counter ≤ d.send_counter)
Sends-ordered p law small none_sent = (small, omega arith, λ e. omega arith)
Sends-ordered p {c} law small (sent {d} aad text env final before h) =
    let (mid, le, same) = Sends-ordered p law small before in
    let (_, _, top, step) = encrypt-numbered p aad text env d final law h mid in
    chain c d final le same top step

-- Two envelopes that a context seals at different times, whatever it seals in between and however
-- often it rotates, never share both the key epoch and the nonce.
pub encrypt-no_nonce_reuse :
    (p : Primitives) (aad text env aad' text' env' : Bytes) (c d e f : CryptoContext)
    → IsAead p
    → c.send_epoch < u64_mod
    → encrypt p aad text c ≡ (ok env, d)
    → Sends p d e
    → encrypt p aad' text' e ≡ (ok env', f)
    → ¬ ((env_epoch env ≡ env_epoch env') × (env_nonce env ≡ env_nonce env'))
encrypt-no_nonce_reuse p aad text env aad' text' env' c d e f law small h between h' (ee, nn) =
    let (e1, n1, s1, _) = encrypt-numbered p aad text env c d law h small in
    let (s2, le, same) = Sends-ordered p law s1 between in
    let (e2, n2, _, step) = encrypt-numbered p aad' text' env' e f law h' s2 in
    let counters = ap counter_of nn in clash d e f le same step (sym e1 ∙ ee ∙ e2) (omega arith)
