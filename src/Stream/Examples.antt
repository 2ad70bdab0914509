-- ===== src/Stream/Examples.antt =====
-- Frames of native/network_core/crates/network-core/src/stream/codec.rs.
use ssh_mobile.Base.{◌≡◌, refl, true, [], ◌∷◌, ◌++◌, ok, arith}
use ssh_mobile.Base.Utf8.{is_utf8}
use ssh_mobile.Base.Words.{be16, be32, be64}
use ssh_mobile.Stream.Codec.{
  Bytes, append_opener, encode_bytes, decode_bytes, encode_open, encode_close, encode_preamble,
  decode_identity, stream_bytes, quic_preamble_magic,
}
use ssh_mobile.Stream.Frames.{decode-encode_bytes}

abbrev opener : Bytes
opener = 65 ∷ 66 ∷ []

abbrev service : Bytes
service = 115 ∷ 104 ∷ []

is_name : is_utf8 opener ≡ true
unfolding is_utf8
is_name = refl

is_service : is_utf8 service ≡ true
unfolding is_utf8
is_service = refl

abbrev bytes_frame : Bytes
bytes_frame = 2 ∷ 65 ∷ 66 ∷ 1 ∷ 2 ∷ 0 ∷ 0 ∷ 0 ∷ 0 ∷ 0 ∷ 0 ∷ 0 ∷ 9 ∷ 0 ∷ 0 ∷ 0 ∷ 1 ∷ 7 ∷ []

encodes_bytes : encode_bytes opener 258 9 (7 ∷ []) ≡ ok bytes_frame
unfolding encode_bytes append_opener be16 be32 be64
encodes_bytes = refl

decode-encode_bytes_example :
    (decode_bytes bytes_frame ≡ ok (opener, 258, 9, 7 ∷ []))
    × (decode_identity stream_bytes bytes_frame ≡ ok (opener, 258))
decode-encode_bytes_example =
    decode-encode_bytes opener (7 ∷ []) bytes_frame 258 9 encodes_bytes is_name (omega arith)
      (omega arith) (omega arith)

abbrev open_frame : Bytes
open_frame = 2 ∷ 65 ∷ 66 ∷ 1 ∷ 2 ∷ 0 ∷ 2 ∷ service

encodes_open : encode_open opener 258 service ≡ ok open_frame
unfolding encode_open append_opener be16
encodes_open = refl

abbrev close_frame : Bytes
close_frame = 2 ∷ 65 ∷ 66 ∷ 1 ∷ 2 ∷ []

encodes_close : encode_close opener 258 ≡ ok close_frame
unfolding encode_close append_opener be16
encodes_close = refl

abbrev preamble : Bytes
preamble = quic_preamble_magic ++ (1 ∷ 2 ∷ 0 ∷ 2 ∷ service)

encodes_preamble : encode_preamble 258 service ≡ ok preamble
unfolding encode_preamble be16
encodes_preamble = refl
