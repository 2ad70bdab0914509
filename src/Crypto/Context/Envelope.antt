-- ===== src/Crypto/Context/Envelope.antt =====
-- What `decrypt` reads from an envelope that `encrypt` wrote.
use ssh_mobile.Base.{
  ℕ, ◌<◌, ◌≡◌, refl, sym, false, ◌++◌, take, drop, length, arith, ok, drop-append, take-append,
  length-append, str_beq_refl,
}
use ssh_mobile.Base.Words.{be64, of_be-be64, u64_mod}
use ssh_mobile.Crypto.Types.{
  Bytes, CryptoSuite, suite_code, suite_from_code, Primitives, nonce_prefix_bytes,
}
use ssh_mobile.Crypto.Context.{
  CryptoContext, envelope, is_malformed, env_epoch, env_nonce, is_foreign, is_unavailable,
  open_envelope, nonce_prefix, epoch_key, unseal_with,
}

module _ (s : CryptoSuite) (epoch : ℕ) (nonce sealed : Bytes) where
  pub env_epoch-envelope : epoch < u64_mod → env_epoch (envelope s epoch nonce sealed) ≡ epoch
  unfolding be64
  env_epoch-envelope h = of_be-be64 epoch h

  drop-envelope : drop 14 (envelope s epoch nonce sealed) ≡ nonce ++ sealed
  unfolding be64
  drop-envelope = refl

  pub env_nonce-envelope : length nonce ≡ 12 → env_nonce (envelope s epoch nonce sealed) ≡ nonce
  unfolding be64
  env_nonce-envelope h = take-append nonce sealed 12 (sym h)

  pub body-envelope : length nonce ≡ 12 → drop 26 (envelope s epoch nonce sealed) ≡ sealed
  unfolding be64
  body-envelope h = drop-append nonce sealed 12 (sym h)

  pub is_malformed-envelope :
      length nonce ≡ 12 → 15 < length sealed → is_malformed (envelope s epoch nonce sealed) ≡ false
  unfolding be64
  is_malformed-envelope h k = ground (arith, length-append nonce sealed)

  pub is_foreign-envelope : is_foreign (envelope s epoch nonce sealed) ≡ false
  unfolding be64 suite_code suite_from_code
  is_foreign-envelope = ground arith

-- The accepting path of `decrypt_internal` up to the replay window.
module _ (p : Primitives) (c : CryptoContext) (aad env text key prefix nonce sealed : Bytes)
    (epoch : ℕ) where
  pub open_envelope_ok :
      is_malformed env ≡ false
      → is_foreign env ≡ false
      → env_epoch env ≡ epoch
      → env_nonce env ≡ nonce
      → drop 26 env ≡ sealed
      → is_unavailable c epoch ≡ false
      → nonce_prefix p c c.rx_info epoch ≡ ok prefix
      → take nonce_prefix_bytes nonce ≡ take nonce_prefix_bytes prefix
      → epoch_key p c c.rx_info epoch ≡ ok key
      → unseal_with p key nonce aad sealed ≡ ok text
      → open_envelope p c aad env ≡ ok (text, nonce, epoch)
  unfolding open_envelope
  open_envelope_ok hm hf he hn hd ha hp hq hk hu = rw (
    hm,
    hf,
    he,
    ha,
    hp,
    hn,
    hq,
    str_beq_refl (take nonce_prefix_bytes prefix),
    he,
    hk,
    hn,
    hd,
    hu,
    hn,
    he,
  )
