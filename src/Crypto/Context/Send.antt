-- ===== src/Crypto/Context/Send.antt =====
-- What a successful `encrypt` has done, step by step.
use ssh_mobile.Base.{
  ℕ, ◌+◌, ◌<◌, ◌≡◌, refl, false, ◌++◌, some, take, Result, ok, err, arith, ◌⊎◌, length,
}
use ssh_mobile.Base.Words.{be64, u64_mod}
use ssh_mobile.Crypto.Types.{Bytes, CryptoError, Primitives, nonce_prefix_bytes, cipher}
use ssh_mobile.Crypto.Replay.{reserve}
use ssh_mobile.Crypto.Context.{
  CryptoContext, M, then_do, pure, ◌>>=◌, in_epoch, is_spent, rotate_if_spent, epoch_key,
  nonce_prefix, next_nonce, seal_with, envelope, encrypt_with_nonce, count_message, encrypt,
}
use ssh_mobile.Crypto.Context.Receive.{nonce_prefix-root, epoch_key-root}

-- Inversion of `?` on a method.
then_do-ok :
    {A B : Type 0} (r : Result CryptoError A × CryptoContext) (f : A → M B) (b : B)
    (c : CryptoContext)
    → then_do r f ≡ (ok b, c)
    → (a : A) × (d : CryptoContext) × (r ≡ (ok a, d)) × (f a d ≡ (ok b, c))
then_do-ok (ok a, d) f b c h = (a, d, refl, h)
then_do-ok (err e, d) f b c h = cc

-- The key is as it was, or a new epoch has begun.
abbrev pub Rotated : ℕ → CryptoContext → CryptoContext → Type 0
Rotated size c d =
    ((d ≡ c) × (is_spent c size ≡ false))
    ⊎ ((d ≡ in_epoch (c.send_epoch + 1) c) × (c.send_epoch + 1 < u64_mod))

rotate_if_spent-ok :
    (size : ℕ) (c d : CryptoContext) → rotate_if_spent size c ≡ (ok tt, d) → Rotated size c d
unfolding rotate_if_spent
rotate_if_spent-ok size c d h = ground arith

module _ (p : Primitives) where
  next_nonce-ok :
      (c d : CryptoContext) (nonce : Bytes)
      → next_nonce p c ≡ (ok nonce, d)
      → (prefix : Bytes) × (nonce_prefix p c c.tx_info c.send_epoch ≡ ok prefix)
        × (nonce ≡ take nonce_prefix_bytes prefix ++ be64 c.send_counter)
        × (d ≡ record c { send_counter = c.send_counter + 1 })
        × (c.send_counter + 1 < u64_mod)
  unfolding next_nonce
  next_nonce-ok c d nonce h = ground (
    arith,
    nonce_prefix-root p c (record c { send_counter = c.send_counter + 1 }) c.tx_info c.send_epoch,
  )

  seal_with-ok :
      (key nonce aad text sealed : Bytes)
      → seal_with p key nonce aad text ≡ ok sealed
      → (cipher key ≡ ok key) × (p.seal key nonce aad text ≡ some sealed)
  unfolding seal_with cipher
  seal_with-ok key nonce aad text sealed h = ground arith

  encrypt_with_nonce-ok :
      (aad text nonce env : Bytes) (c d : CryptoContext)
      → encrypt_with_nonce p aad text nonce c ≡ (ok env, d)
      → (key : Bytes) × (sealed : Bytes) × (epoch_key p c c.tx_info c.send_epoch ≡ ok key)
        × (seal_with p key nonce aad text ≡ ok sealed)
        × (env ≡ envelope c.suite c.send_epoch nonce sealed)
        × (d ≡ record c { send_window = (reserve c.send_window nonce).1 })
        × ((reserve c.send_window nonce).0 ≡ ok tt)
  unfolding encrypt_with_nonce
  encrypt_with_nonce-ok aad text nonce env c d h = ground (
    arith,
    epoch_key-root p c (record c { send_window = (reserve c.send_window nonce).1 }) c.tx_info
        c.send_epoch,
  )

  count_message-ok :
      (size : ℕ) (c d : CryptoContext)
      → count_message p size c ≡ (ok tt, d)
      → d ≡ record c {
        messages_in_epoch = c.messages_in_epoch + 1;
        bytes_in_epoch = c.bytes_in_epoch + size;
      }
  unfolding count_message
  count_message-ok size c d h = ground arith

  -- A successful `encrypt`: the context `d` after the key was rotated where that was due, the
  -- parts of the envelope, and the context at the end.
  pub record Sent (aad text env : Bytes) (c final : CryptoContext) : Type 0 where
    pub d : CryptoContext
    pub nonce : Bytes
    pub prefix : Bytes
    pub key : Bytes
    pub sealed : Bytes
    pub rotated : Rotated (length text) c d
    pub prefixed : nonce_prefix p d d.tx_info d.send_epoch ≡ ok prefix
    pub counted : nonce ≡ take nonce_prefix_bytes prefix ++ be64 d.send_counter
    pub no_wrap : d.send_counter + 1 < u64_mod
    pub keyed : epoch_key p d d.tx_info d.send_epoch ≡ ok key
    pub encrypted : seal_with p key nonce aad text ≡ ok sealed
    pub enveloped : env ≡ envelope d.suite d.send_epoch nonce sealed
    pub unused : (reserve d.send_window nonce).0 ≡ ok tt
    pub ends : final ≡ record d {
      send_counter = d.send_counter + 1;
      send_window = (reserve d.send_window nonce).1;
      messages_in_epoch = d.messages_in_epoch + 1;
      bytes_in_epoch = d.bytes_in_epoch + length text;
    }

  -- `encrypt` from its last step backwards.
  abbrev counting : Bytes → Bytes → M Bytes
  counting text env = count_message p (length text) >>= λ _. pure env

  abbrev sealing : Bytes → Bytes → Bytes → M Bytes
  sealing aad text nonce = encrypt_with_nonce p aad text nonce >>= counting text

  abbrev numbering : Bytes → Bytes → M Bytes
  numbering aad text = next_nonce p >>= sealing aad text

  encrypt-rotating :
      (aad text env : Bytes) (c final : CryptoContext)
      → encrypt p aad text c ≡ (ok env, final)
      → then_do (rotate_if_spent (length text) c) (λ _. numbering aad text) ≡ (ok env, final)
  unfolding encrypt
  encrypt-rotating aad text env c final h = ground arith

  encrypt-steps :
      (aad text env : Bytes) (c final : CryptoContext)
      → encrypt p aad text c ≡ (ok env, final)
      → (d : CryptoContext) × (nonce : Bytes) × (c2 : CryptoContext) × (c3 : CryptoContext)
        × (rotate_if_spent (length text) c ≡ (ok tt, d))
        × (next_nonce p d ≡ (ok nonce, c2))
        × (encrypt_with_nonce p aad text nonce c2 ≡ (ok env, c3))
        × (count_message p (length text) c3 ≡ (ok tt, final))
  encrypt-steps aad text env c final h =
      let (_, d, h1, r1) =
        then_do-ok (rotate_if_spent (length text) c) (λ _. numbering aad text) env final
          (encrypt-rotating aad text env c final h) in
      let (nonce, c2, h2, r2) = then_do-ok (next_nonce p d) (sealing aad text) env final r1 in
      let (env', c3, h3, r3) =
        then_do-ok (encrypt_with_nonce p aad text nonce c2) (counting text) env final r2 in
      let (_, c4, h4, r4) =
        then_do-ok (count_message p (length text) c3) (λ _. pure env') env final r3 in
      (d, nonce, c2, c3, ground arith, h2, ground arith, ground arith)

  pub encrypt-Sent :
      (aad text env : Bytes) (c final : CryptoContext)
      → encrypt p aad text c ≡ (ok env, final)
      → Sent aad text env c final
  encrypt-Sent aad text env c final h =
      let (d, nonce, c2, c3, h1, h2, h3, h4) = encrypt-steps aad text env c final h in
      let (prefix, n1, n2, n3, n4) = next_nonce-ok d c2 nonce h2 in
      let (key, sealed, s1, s2, s3, s4, s5) = encrypt_with_nonce-ok aad text nonce env c2 c3 h3 in
      let counted = count_message-ok (length text) c3 final h4 in
      record {
        d = d;
        nonce = nonce;
        prefix = prefix;
        key = key;
        sealed = sealed;
        rotated = rotate_if_spent-ok (length text) c d h1;
        prefixed = n1;
        counted = n2;
        no_wrap = n4;
        keyed = ground (arith, epoch_key-root p d c2 d.tx_info d.send_epoch);
        encrypted = s2;
        enveloped = ground arith;
        unused = ground arith;
        ends = ground arith;
      }
