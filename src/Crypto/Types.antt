-- ===== src/Crypto/Types.antt =====
-- Constants, errors and primitives of native/network_core/crates/network-core/src/crypto/mod.rs.
-- The crates `hkdf` and `aes-gcm` are the record `Primitives`.
use Prim.Native.Char.{code}
use Prim.Native.String.{String}
use ssh_mobile.Base.{
  ℕ, ◌+◌, ◌≡◌, Bool, ◌&&◌, List, [], ◌∷◌, Option, none, some, leb, ◌==◌, if◌then◌else◌, length,
  take, Result, ok, err, str_beq,
}

abbrev pub Bytes : Type 0
Bytes = List ℕ

-- The bytes of an ASCII literal.
abbrev pub ascii : String → Bytes
ascii String.[] = []
ascii (String.◌∷◌ c s) = code c ∷ ascii s

pub data CryptoError : Type 0 where
  invalid_envelope invalid_key key_derivation encryption decryption : CryptoError
  sequence_overflow replay_detected nonce_reuse key_epoch_unavailable : CryptoError
  nonce_prefix_mismatch e2ee_required state_unavailable : CryptoError

abbrev pub initiator_to_responder_info : Bytes
initiator_to_responder_info = ascii "ssh-mobile/session/application/initiator-to-responder/v2"

abbrev pub responder_to_initiator_info : Bytes
responder_to_initiator_info = ascii "ssh-mobile/session/application/responder-to-initiator/v2"

abbrev pub nonce_prefix_info : Bytes
nonce_prefix_info = ascii "ssh-mobile/session/application/nonce-prefix/v2"

abbrev pub envelope_magic : Bytes
envelope_magic = ascii "SME1"

abbrev pub envelope_version : ℕ
envelope_version = 1

abbrev pub gcm_nonce_bytes : ℕ
gcm_nonce_bytes = 12

abbrev pub gcm_tag_bytes : ℕ
gcm_tag_bytes = 16

-- 4 + 1 + 1 + size_of::<u64>() + GCM_NONCE_BYTES.
abbrev pub envelope_header_bytes : ℕ
envelope_header_bytes = 26

abbrev pub replay_window_capacity : ℕ
replay_window_capacity = 4096

abbrev pub max_retained_key_epochs : ℕ
max_retained_key_epochs = 4

abbrev pub max_messages_per_key : ℕ
max_messages_per_key = 1048576

abbrev pub max_bytes_per_key : ℕ
max_bytes_per_key = 1073741824

abbrev pub nonce_prefix_bytes : ℕ
nonce_prefix_bytes = 4

pub data CryptoSuite : Type 0 where
  hkdf_sha256_aes256gcm_v1 : CryptoSuite

unfoldable pub suite_code : CryptoSuite → ℕ
suite_code hkdf_sha256_aes256gcm_v1 = 1

unfoldable pub suite_from_code : ℕ → Option CryptoSuite
suite_from_code value = if value == 1 then some hkdf_sha256_aes256gcm_v1 else none

-- HKDF-SHA256 expanded to 32 bytes, and AES-256-GCM under a 32-byte key.
pub record Primitives : Type 0 where
  pub hkdf : Bytes → Bytes → Bytes → Option Bytes
  pub seal : Bytes → Bytes → Bytes → Bytes → Option Bytes
  pub unseal : Bytes → Bytes → Bytes → Bytes → Option Bytes

-- What the crates document: the expansion fills its buffer, the tag is appended, and what was
-- sealed opens under the same key, nonce and associated data.
pub record IsAead (p : Primitives) : Type 0 where
  pub hkdf_fills : (ikm salt info key : Bytes) → p.hkdf ikm salt info ≡ some key → length key ≡ 32
  pub seal_appends_tag :
      (key nonce aad text sealed : Bytes)
      → p.seal key nonce aad text ≡ some sealed
      → length sealed ≡ length text + gcm_tag_bytes
  pub unseal_seal :
      (key nonce aad text sealed : Bytes)
      → p.seal key nonce aad text ≡ some sealed
      → p.unseal key nonce aad sealed ≡ some text

unfoldable pub derive_material : Primitives → Bytes → Bytes → Bytes → Result CryptoError Bytes
derive_material p ikm salt info = elim (p.hkdf ikm salt info) [
  | none ↦ err key_derivation
  | some key ↦ ok key
]

-- `Aes256Gcm::new_from_slice`: the key must have 32 bytes.
unfoldable pub cipher : Bytes → Result CryptoError Bytes
cipher key = if length key == 32 then ok key else err invalid_key

unfoldable pub is_application_envelope : Bytes → Bool
is_application_envelope bytes =
    leb (length envelope_magic) (length bytes) && str_beq (take 4 bytes) envelope_magic
