-- ===== src/Stream/Codec.antt =====
-- The wire format of stream frames: native/network_core/crates/network-core/src/stream/codec.rs.
-- Strings are their UTF-8 bytes; a decoder walks the payload with a cursor, as in the source.
use ssh_mobile.Base.{
  ℕ, ◌+◌, Bool, ◌||◌, not, List, [], ◌∷◌, ◌++◌, ltb, ◌==◌, if◌then◌else◌, length, get_or, slice,
  drop, Result, ok, err,
}
use ssh_mobile.Base.Utf8.{is_utf8}
use ssh_mobile.Base.Words.{be16, be32, be64, of_be}

abbrev pub Bytes : Type 0
Bytes = List ℕ

pub data StreamError : Type 0 where
  not_found already_open closed invalid_frame invalid_argument capacity_exceeded : StreamError
  not_connected unsupported_transport : StreamError
  send : Bytes → StreamError

pub data GenericFrameKind : Type 0 where
  data_message delivery_ack stream_bytes stream_open stream_close : GenericFrameKind

abbrev pub max_service_bytes : ℕ
max_service_bytes = 128

abbrev pub quic_preamble_magic : Bytes
quic_preamble_magic = 0x53 ∷ 0x4d ∷ 0x53 ∷ 0x53 ∷ []

abbrev pub bytes_header_bytes : ℕ
bytes_header_bytes = 15

abbrev pub open_header_bytes : ℕ
open_header_bytes = 5

abbrev pub close_header_bytes : ℕ
close_header_bytes = 3

abbrev pub then_ok :
    {A B : Type 0} → Result StreamError A → (A → Result StreamError B) → Result StreamError B
then_ok (ok a) f = f a
then_ok (err e) f = err e

abbrev pub is_bad_length : ℕ → ℕ → Bool
is_bad_length limit n = n == 0 || ltb limit n

-- `append_stream_opener`.
unfoldable pub append_opener : Bytes → Bytes → Result StreamError Bytes
append_opener out opener =
    if is_bad_length 128 (length opener)
    then err invalid_argument
    else ok (out ++ (length opener ∷ opener))

-- `decode_stream_opener`: the opener and the cursor after it.
unfoldable pub decode_opener : Bytes → ℕ → Result StreamError (Bytes × ℕ)
decode_opener payload cursor =
    if ltb (length payload) (cursor + 1)
    then err invalid_frame
    else (let size = get_or payload cursor 0 in
        if is_bad_length 128 size || ltb (length payload) (cursor + 1 + size)
        then err invalid_frame
        else if not (is_utf8 (slice payload (cursor + 1) size))
        then err invalid_frame
        else ok (slice payload (cursor + 1) size, cursor + 1 + size))

unfoldable pub encode_bytes : Bytes → ℕ → ℕ → Bytes → Result StreamError Bytes
encode_bytes opener stream seq bytes =
    if length bytes == 0
    then err invalid_argument
    else then_ok (append_opener [] opener)
        (λ out. ok (out ++ (be16 stream ++ (be64 seq ++ (be32 (length bytes) ++ bytes)))))

unfoldable pub decode_bytes : Bytes → Result StreamError (Bytes × ℕ × ℕ × Bytes)
decode_bytes payload =
    if ltb (length payload) bytes_header_bytes
    then err invalid_frame
    else then_ok (decode_opener payload 0) (λ (opener, cursor).
      if ltb (length payload) (cursor + 14)
      then err invalid_frame
      else (let size = of_be (slice payload (cursor + 10) 4) in
          if size == 0 || not (cursor + 14 + size == length payload)
          then err invalid_frame
          else ok (
            opener,
            of_be (slice payload cursor 2),
            of_be (slice payload (cursor + 2) 8),
            slice payload (cursor + 14) size,
          )))

unfoldable pub encode_open : Bytes → ℕ → Bytes → Result StreamError Bytes
encode_open opener stream service =
    if is_bad_length max_service_bytes (length service)
    then err invalid_argument
    else then_ok (append_opener [] opener)
        (λ out. ok (out ++ (be16 stream ++ (be16 (length service) ++ service))))

unfoldable pub decode_open : Bytes → Result StreamError (Bytes × ℕ × Bytes)
decode_open payload =
    if ltb (length payload) open_header_bytes
    then err invalid_frame
    else then_ok (decode_opener payload 0) (λ (opener, cursor).
      if ltb (length payload) (cursor + 4)
      then err invalid_frame
      else (let size = of_be (slice payload (cursor + 2) 2) in
          if is_bad_length max_service_bytes size || not (cursor + 4 + size == length payload)
          then err invalid_frame
          else if not (is_utf8 (slice payload (cursor + 4) size))
          then err invalid_frame
          else ok (opener, of_be (slice payload cursor 2), slice payload (cursor + 4) size)))

unfoldable pub encode_close : Bytes → ℕ → Result StreamError Bytes
encode_close opener stream = then_ok (append_opener [] opener) (λ out. ok (out ++ be16 stream))

unfoldable pub decode_close : Bytes → Result StreamError (Bytes × ℕ)
decode_close payload =
    if ltb (length payload) close_header_bytes
    then err invalid_frame
    else then_ok (decode_opener payload 0) (λ (opener, cursor).
      if not (length payload == cursor + 2)
      then err invalid_frame
      else ok (opener, of_be (slice payload cursor 2)))

unfoldable pub decode_identity : GenericFrameKind → Bytes → Result StreamError (Bytes × ℕ)
decode_identity stream_open payload =
    then_ok (decode_open payload) (λ (opener, stream, service). ok (opener, stream))
decode_identity stream_bytes payload =
    then_ok (decode_bytes payload) (λ (opener, stream, seq, bytes). ok (opener, stream))
decode_identity stream_close payload = decode_close payload
decode_identity data_message payload = err invalid_frame
decode_identity delivery_ack payload = err invalid_frame

unfoldable pub encode_preamble : ℕ → Bytes → Result StreamError Bytes
encode_preamble stream service =
    if is_bad_length max_service_bytes (length service)
    then err invalid_argument
    else ok (quic_preamble_magic ++ (be16 stream ++ (be16 (length service) ++ service)))

-- `read_quic_stream_preamble_after_magic` on the bytes that the stream still has; what stays
-- unread is returned too.
unfoldable pub read_preamble : Bytes → Result StreamError ((ℕ × Bytes) × Bytes)
read_preamble stream =
    if ltb (length stream) 4
    then err invalid_frame
    else (let size = of_be (slice stream 2 2) in
        if is_bad_length max_service_bytes size
        then err invalid_frame
        else if ltb (length stream) (4 + size)
        then err invalid_frame
        else if not (is_utf8 (slice stream 4 size))
        then err invalid_frame
        else ok ((of_be (slice stream 0 2), slice stream 4 size), drop (4 + size) stream))
