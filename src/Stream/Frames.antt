-- ===== src/Stream/Frames.antt =====
-- Round trips of the stream frames.
use ssh_mobile.Base.{
  ℕ, suc, ◌+◌, ◌<◌, ◌≡◌, refl, ap, ◌∙◌, true, false, [], ◌∷◌, ◌++◌, ◌==◌, length, drop, take, ok,
  arith, Bool-cases, inl, inr, take-append, take_all, length-append,
}
use ssh_mobile.Base.Utf8.{is_utf8}
use ssh_mobile.Base.Words.{
  be16, be32, be64, u64_mod, of_be-be16, of_be-be32, of_be-be64, length-be16,
}
use ssh_mobile.Stream.Codec.{
  Bytes, stream_bytes, stream_open, stream_close, then_ok, is_bad_length, append_opener,
  decode_opener, encode_bytes, decode_bytes, encode_open, decode_open, encode_close, decode_close,
  decode_identity, max_service_bytes,
}

-- A frame: the length of the opener, the opener, the rest.
abbrev framed : Bytes → Bytes → Bytes
framed opener rest = length opener ∷ (opener ++ rest)

drop-framed :
    (opener rest : Bytes) (k : ℕ) → drop (1 + length opener + k) (framed opener rest) ≡ drop k rest
drop-framed opener rest k =
    ap (λ i. drop i (framed opener rest)) (assoc (length opener)) ∙ skip opener
  where
    assoc : (n : ℕ) → 1 + n + k ≡ suc (n + k)
    assoc n = omega arith

    skip : (xs : Bytes) → drop (length xs + k) (xs ++ rest) ≡ drop k rest
    skip [] = ap (λ i. drop i rest) (zero_plus k)
      where
        zero_plus : (n : ℕ) → 0 + n ≡ n
        zero_plus n = omega arith
    skip (x ∷ xs) = ap (λ i. drop i (x ∷ (xs ++ rest))) (suc_plus (length xs)) ∙ skip xs
      where
        suc_plus : (n : ℕ) → suc n + k ≡ suc (n + k)
        suc_plus n = omega arith

body-framed : (opener rest : Bytes) → drop (1 + length opener) (framed opener rest) ≡ rest
body-framed opener rest =
    ap (λ i. drop i (framed opener rest)) (plus_zero (length opener)) ∙ drop-framed opener rest 0
  where
    plus_zero : (n : ℕ) → 1 + n ≡ 1 + n + 0
    plus_zero n = omega arith

decode_opener-framed :
    (opener rest : Bytes)
    → is_bad_length 128 (length opener) ≡ false
    → is_utf8 opener ≡ true
    → decode_opener (framed opener rest) 0 ≡ ok (opener, 1 + length opener)
unfolding decode_opener
decode_opener-framed opener rest fits valid =
    rw (take-append opener rest (length opener) refl, length-append opener rest) (ground arith)

abbrev bytes_fields : ℕ → ℕ → Bytes → Bytes
bytes_fields stream seq bytes = be16 stream ++ (be64 seq ++ (be32 (length bytes) ++ bytes))

bytes_fields-slices :
    (stream seq : ℕ) (bytes : Bytes)
    → (take 2 (bytes_fields stream seq bytes) ≡ be16 stream)
      × (take 8 (drop 2 (bytes_fields stream seq bytes)) ≡ be64 seq)
      × (take 4 (drop 10 (bytes_fields stream seq bytes)) ≡ be32 (length bytes))
      × (drop 14 (bytes_fields stream seq bytes) ≡ bytes)
      × (length (bytes_fields stream seq bytes) ≡ 14 + length bytes)
unfolding be16 be32 be64
bytes_fields-slices stream seq bytes = (refl, refl, refl, refl, omega arith)

decode_bytes-framed :
    (opener : Bytes) (stream seq : ℕ) (bytes : Bytes)
    → is_bad_length 128 (length opener) ≡ false
    → is_utf8 opener ≡ true
    → stream < 65536
    → seq < u64_mod
    → 0 < length bytes
    → length bytes < 4294967296
    → decode_bytes (framed opener (bytes_fields stream seq bytes)) ≡ ok (opener, stream, seq, bytes)
unfolding decode_bytes
decode_bytes-framed opener stream seq bytes fits valid s q some_bytes few =
    let rest = bytes_fields stream seq bytes in
    let (at0, at2, at10, at14, size) = bytes_fields-slices stream seq bytes in
    rw
      (
        decode_opener-framed opener rest fits valid,
        drop-framed opener rest 10,
        drop-framed opener rest 2,
        drop-framed opener rest 14,
        body-framed opener rest,
        at0,
        at2,
        at10,
        at14,
        of_be-be32 (length bytes) few,
        of_be-be64 seq q,
        of_be-be16 stream s,
        take_all bytes (length bytes) (omega arith),
      )
      (ground (arith, length-append opener rest, size))

abbrev open_fields : ℕ → Bytes → Bytes
open_fields stream service = be16 stream ++ (be16 (length service) ++ service)

open_fields-slices :
    (stream : ℕ) (service : Bytes)
    → (take 2 (open_fields stream service) ≡ be16 stream)
      × (take 2 (drop 2 (open_fields stream service)) ≡ be16 (length service))
      × (drop 4 (open_fields stream service) ≡ service)
      × (length (open_fields stream service) ≡ 4 + length service)
unfolding be16
open_fields-slices stream service = (refl, refl, refl, omega arith)

decode_open-framed :
    (opener : Bytes) (stream : ℕ) (service : Bytes)
    → is_bad_length 128 (length opener) ≡ false
    → is_utf8 opener ≡ true
    → stream < 65536
    → is_bad_length max_service_bytes (length service) ≡ false
    → is_utf8 service ≡ true
    → decode_open (framed opener (open_fields stream service)) ≡ ok (opener, stream, service)
unfolding decode_open
decode_open-framed opener stream service fits valid s short valid_service =
    let rest = open_fields stream service in
    let (at0, at2, at4, size) = open_fields-slices stream service in
    rw
      (
        decode_opener-framed opener rest fits valid,
        drop-framed opener rest 2,
        drop-framed opener rest 4,
        body-framed opener rest,
        at0,
        at2,
        at4,
        of_be-be16 stream s,
        of_be-be16 (length service) (ground arith),
        take_all service (length service) (omega arith),
        short,
        valid_service,
      )
      (ground (arith, length-append opener rest, size))

decode_close-framed :
    (opener : Bytes) (stream : ℕ)
    → is_bad_length 128 (length opener) ≡ false
    → is_utf8 opener ≡ true
    → stream < 65536
    → decode_close (framed opener (be16 stream)) ≡ ok (opener, stream)
unfolding decode_close
decode_close-framed opener stream fits valid s =
    rw
      (
        decode_opener-framed opener (be16 stream) fits valid,
        body-framed opener (be16 stream),
        take_all (be16 stream) 2 (omega (arith, length-be16 stream)),
        of_be-be16 stream s,
      )
      (ground (arith, length-append opener (be16 stream), length-be16 stream))

-- An encoder that succeeds had an opener of a legal length, and put it first.
append_opener-framed :
    (opener rest frame : Bytes)
    → then_ok (append_opener [] opener) (λ out. ok (out ++ rest)) ≡ ok frame
    → (is_bad_length 128 (length opener) ≡ false) × (framed opener rest ≡ frame)
unfolding append_opener
append_opener-framed opener rest frame h = elim (Bool-cases (is_bad_length 128 (length opener))) [
  | inl bad ↦ absurd (cc (rw bad at h))
  | inr fits ↦ let done = rw fits at h in (fits, cc)
]

-- A data frame that the encoder makes decodes to what was encoded: the opener, the stream, the
-- sequence and the bytes. (The opener is UTF-8 and the numbers fit their fields.)
pub decode-encode_bytes :
    (opener bytes frame : Bytes) (stream seq : ℕ)
    → encode_bytes opener stream seq bytes ≡ ok frame
    → is_utf8 opener ≡ true
    → stream < 65536
    → seq < u64_mod
    → length bytes < 4294967296
    → (decode_bytes frame ≡ ok (opener, stream, seq, bytes))
      × (decode_identity stream_bytes frame ≡ ok (opener, stream))
unfolding encode_bytes decode_identity
decode-encode_bytes opener bytes frame stream seq h valid s q few =
    elim (Bool-cases (length bytes == 0)) [
      | inl empty ↦ absurd (cc (rw empty at h))
      | inr some_bytes ↦
          let (fits, same) =
            append_opener-framed opener (bytes_fields stream seq bytes) frame
              (rw some_bytes at h) in
          let decoded =
            decode_bytes-framed opener stream seq bytes fits valid s q (ground arith) few in
          (rw (← same) decoded, rw (← same, decoded))
    ]

-- An open frame that the encoder makes decodes to the opener, the stream and the service.
pub decode-encode_open :
    (opener service frame : Bytes) (stream : ℕ)
    → encode_open opener stream service ≡ ok frame
    → is_utf8 opener ≡ true
    → is_utf8 service ≡ true
    → stream < 65536
    → (decode_open frame ≡ ok (opener, stream, service))
      × (decode_identity stream_open frame ≡ ok (opener, stream))
unfolding encode_open decode_identity
decode-encode_open opener service frame stream h valid valid_service s =
    elim (Bool-cases (is_bad_length max_service_bytes (length service))) [
      | inl bad ↦ absurd (cc (rw bad at h))
      | inr short ↦
          let (fits, same) =
            append_opener-framed opener (open_fields stream service) frame (rw short at h) in
          let decoded = decode_open-framed opener stream service fits valid s short valid_service in
          (rw (← same) decoded, rw (← same, decoded))
    ]

-- A close frame that the encoder makes decodes to the opener and the stream.
pub decode-encode_close :
    (opener frame : Bytes) (stream : ℕ)
    → encode_close opener stream ≡ ok frame
    → is_utf8 opener ≡ true
    → stream < 65536
    → (decode_close frame ≡ ok (opener, stream))
      × (decode_identity stream_close frame ≡ ok (opener, stream))
unfolding encode_close decode_identity
decode-encode_close opener frame stream h valid s =
    let (fits, same) = append_opener-framed opener (be16 stream) frame h in
    let decoded = decode_close-framed opener stream fits valid s in
    (rw (← same) decoded, rw (← same) decoded)
