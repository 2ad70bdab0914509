-- ===== src/Crypto/Context/RoundTrip.antt =====
-- `decrypt` of what `encrypt` wrote, and the budget of a key.
use ssh_mobile.Base.{
  ℕ, ◌<◌, ◌≡◌, sym, ap, ◌∙◌, false, ◌++◌, take, ok, arith, length, length-append, length-take,
  str_eq, take-append,
}
use ssh_mobile.Base.Words.{be64, u64_mod, length-be64}
use ssh_mobile.Base.Sets.{contains}
use ssh_mobile.Crypto.Types.{Bytes, Primitives, IsAead, nonce_prefix_bytes, cipher, derive_material}
use ssh_mobile.Crypto.Context.{
  CryptoContext, epoch_key, nonce_prefix, seal_with, unseal_with, encrypt, decrypt, is_unavailable,
  env_nonce,
}
use ssh_mobile.Crypto.Context.Envelope.{
  open_envelope_ok, env_epoch-envelope, env_nonce-envelope, body-envelope, is_malformed-envelope,
  is_foreign-envelope,
}
use ssh_mobile.Crypto.Context.Receive.{nonce_prefix-root, epoch_key-root, accepted, decrypt_fresh}
use ssh_mobile.Crypto.Context.Send.{Sent, encrypt-Sent, Rotated}

derive_material-length :
    (p : Primitives) (ikm salt info key : Bytes)
    → IsAead p
    → derive_material p ikm salt info ≡ ok key
    → length key ≡ 32
unfolding derive_material
derive_material-length p ikm salt info key law h = ground (arith, law.hkdf_fills ikm salt info key)

nonce_prefix-length :
    (p : Primitives) (c : CryptoContext) (info prefix : Bytes) (epoch : ℕ)
    → IsAead p
    → nonce_prefix p c info epoch ≡ ok prefix
    → length prefix ≡ 32
unfolding nonce_prefix
nonce_prefix-length p c info prefix epoch law h = grind (arith, derive_material-length p)

-- A nonce has four bytes of prefix and the eight bytes of its counter.
pub Sent-length_nonce :
    (p : Primitives) (aad text env : Bytes) (c final : CryptoContext)
    → IsAead p
    → (s : Sent p aad text env c final)
    → (length (take nonce_prefix_bytes s.prefix) ≡ 4) × (length s.nonce ≡ 12)
Sent-length_nonce p aad text env c final law s =
    let full = nonce_prefix-length p s.d s.d.tx_info s.prefix s.d.send_epoch law s.prefixed in
    let four : length (take nonce_prefix_bytes s.prefix) ≡ 4 =
      omega (arith, length-take nonce_prefix_bytes s.prefix) in
    (
      four,
      rw s.counted (
          omega (
            arith,
            length-append (take nonce_prefix_bytes s.prefix) (be64 s.d.send_counter),
            length-be64 s.d.send_counter,
          )),
    )

-- What was sealed is unsealed, and is longer than a tag.
seal_with-unseal :
    (p : Primitives) (key nonce aad text sealed : Bytes)
    → IsAead p
    → seal_with p key nonce aad text ≡ ok sealed
    → (unseal_with p key nonce aad sealed ≡ ok text) × (15 < length sealed)
unfolding seal_with unseal_with cipher
seal_with-unseal p key nonce aad text sealed law h = ground (
  arith,
  law.unseal_seal key nonce aad text sealed,
  law.seal_appends_tag key nonce aad text sealed,
)

-- The context that numbers a message has the keys of the sender, in an epoch below 2^64.
pub Rotated-frame :
    (size : ℕ) (c d : CryptoContext)
    → Rotated size c d
    → (d.root_key ≡ c.root_key)
      × (d.tx_info ≡ c.tx_info)
      × (c.send_epoch < u64_mod → d.send_epoch < u64_mod)
Rotated-frame size c d h = ground arith

take-prefix :
    (prefix : Bytes) (counter : ℕ)
    → length (take nonce_prefix_bytes prefix) ≡ 4
    → take nonce_prefix_bytes (take nonce_prefix_bytes prefix ++ be64 counter)
      ≡ take nonce_prefix_bytes prefix
take-prefix prefix counter h = take-append (take nonce_prefix_bytes prefix) (be64 counter) 4 (sym h)

-- A receiver with the sender's root key and opposite direction, whose epochs still cover the
-- sender's and who has not seen the nonce, decrypts what the sender encrypted to the same text.
pub decrypt-encrypt :
    (p : Primitives) (aad text env : Bytes) (c final r : CryptoContext)
    → IsAead p
    → encrypt p aad text c ≡ (ok env, final)
    → c.send_epoch < u64_mod
    → r.root_key ≡ c.root_key
    → r.rx_info ≡ c.tx_info
    → is_unavailable r final.send_epoch ≡ false
    → contains r.receive_window.seen (env_nonce env) ≡ false
    → decrypt p aad env r ≡ (ok text, accepted r (env_nonce env) final.send_epoch)
unfolding decrypt nonce_prefix epoch_key
decrypt-encrypt p aad text env c final r law h small root info kept new =
    let s = encrypt-Sent p aad text env c final h in
    let (four, twelve) = Sent-length_nonce p aad text env c final law s in
    let (d_root, d_info, d_small) = Rotated-frame (length text) c s.d s.rotated in
    let (unsealed, long) = seal_with-unseal p s.key s.nonce aad text s.sealed law s.encrypted in
    let epoch : final.send_epoch ≡ s.d.send_epoch = ap (λ x. x.send_epoch) s.ends in
    let named : env_nonce env ≡ s.nonce =
      ap env_nonce s.enveloped
      ∙ env_nonce-envelope s.d.suite s.d.send_epoch s.nonce s.sealed twelve in
    let opens =
      open_envelope_ok p r aad env text s.key s.prefix s.nonce s.sealed s.d.send_epoch
        (rw s.enveloped
          (is_malformed-envelope s.d.suite s.d.send_epoch s.nonce s.sealed twelve long))
        (rw s.enveloped (is_foreign-envelope s.d.suite s.d.send_epoch s.nonce s.sealed))
        (rw s.enveloped
          (env_epoch-envelope s.d.suite s.d.send_epoch s.nonce s.sealed (d_small small)))
        named (rw s.enveloped (body-envelope s.d.suite s.d.send_epoch s.nonce s.sealed twelve))
        (rw epoch at kept)
        (rw (info ∙ sym d_info)
          (nonce_prefix-root p s.d r s.d.tx_info s.d.send_epoch (root ∙ sym d_root) ∙ s.prefixed))
        (rw s.counted (take-prefix s.prefix s.d.send_counter four))
        (rw (info ∙ sym d_info)
          (epoch_key-root p s.d r s.d.tx_info s.d.send_epoch (root ∙ sym d_root) ∙ s.keyed))
        unsealed in
    rw (epoch, named)
      (decrypt_fresh p r aad env text s.nonce s.d.send_epoch false opens (rw named at new))
