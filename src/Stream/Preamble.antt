-- ===== src/Stream/Preamble.antt =====
-- The preamble of a QUIC stream.
use ssh_mobile.Base.{
  ℕ, suc, ◌+◌, ◌<◌, ◌≡◌, refl, ap, ◌∙◌, true, ◌++◌, length, drop, take, ok, arith, Bool-cases, inl,
  inr, drop-append, take-append, length-append,
}
use ssh_mobile.Base.Utf8.{is_utf8}
use ssh_mobile.Base.Words.{be16, of_be-be16}
use ssh_mobile.Stream.Codec.{
  Bytes, is_bad_length, encode_preamble, read_preamble, max_service_bytes, quic_preamble_magic,
}

abbrev sent_service : ℕ → Bytes → Bytes → Bytes
sent_service stream service rest = be16 stream ++ (be16 (length service) ++ (service ++ rest))

sent_service-slices :
    (stream : ℕ) (service rest : Bytes)
    → (take 2 (sent_service stream service rest) ≡ be16 stream)
      × (take 2 (drop 2 (sent_service stream service rest)) ≡ be16 (length service))
      × (drop 4 (sent_service stream service rest) ≡ service ++ rest)
      × (length (sent_service stream service rest) ≡ 4 + length service + length rest)
unfolding be16
sent_service-slices stream service rest =
    (refl, refl, refl, omega (arith, length-append service rest))

drop-sent_service :
    (stream : ℕ) (service rest : Bytes)
    → drop (4 + length service) (sent_service stream service rest) ≡ rest
unfolding be16
drop-sent_service stream service rest =
    ap (λ i. drop i (sent_service stream service rest)) (four (length service))
    ∙ drop-append service rest (length service) refl
  where
    four : (n : ℕ) → 4 + n ≡ suc (suc (suc (suc n)))
    four n = omega arith

sent_service-append :
    (stream : ℕ) (service rest : Bytes)
    → (be16 stream ++ (be16 (length service) ++ service)) ++ rest ≡ sent_service stream service rest
unfolding be16
sent_service-append stream service rest = refl

-- A preamble is the magic and then what the reader takes back: the stream and the service. The
-- reader leaves the bytes that follow unread.
pub read-encode_preamble :
    (service frame rest : Bytes) (stream : ℕ)
    → encode_preamble stream service ≡ ok frame
    → is_utf8 service ≡ true
    → stream < 65536
    → (take 4 frame ≡ quic_preamble_magic)
      × (read_preamble (drop 4 frame ++ rest) ≡ ok ((stream, service), rest))
unfolding encode_preamble read_preamble
read-encode_preamble service frame rest stream h valid s =
    elim (Bool-cases (is_bad_length max_service_bytes (length service))) [
      | inl bad ↦ absurd (cc (rw bad at h))
      | inr short ↦
          let same : quic_preamble_magic ++ (be16 stream ++ (be16 (length service) ++ service))
              ≡ frame =
            cc (rw short at h) in
          let (at0, at2, at4, size) = sent_service-slices stream service rest in
          rw (← same) (
            refl,
            rw
                (
                  sent_service-append stream service rest,
                  at0,
                  at2,
                  at4,
                  of_be-be16 stream s,
                  of_be-be16 (length service) (ground arith),
                  take-append service rest (length service) refl,
                  drop-sent_service stream service rest,
                  size,
                  short,
                  valid,
                )
                (ground arith),
          )
    ]
