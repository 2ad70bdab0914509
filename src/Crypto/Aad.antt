-- ===== src/Crypto/Aad.antt =====
-- Associated data: `data_message_aad` and `file_chunk_aad` of
-- native/network_core/crates/network-core/src/crypto/session.rs. A policy is its i32 as 32 bits.
pub mod Binding
pub mod Examples
use ssh_mobile.Base.{ℕ, List, [], ◌∷◌, ◌++◌, length}
use ssh_mobile.Base.Words.{be32, be64}
use ssh_mobile.Crypto.Types.{Bytes, ascii}

abbrev pub file_chunk_aad_prefix : Bytes
file_chunk_aad_prefix = ascii "ssh-mobile/session/application/file-chunk/v1"

-- `append_len_prefixed`, with what is appended after it.
unfoldable pub len_prefixed : Bytes → Bytes → Bytes
len_prefixed bytes rest = be32 (length bytes) ++ (bytes ++ rest)

unfoldable pub data_message_aad : Bytes → Bytes → Bytes → ℕ → ℕ → ℕ → Bytes
data_message_aad session channel message sequence epoch policy =
    len_prefixed session
      (len_prefixed channel (len_prefixed message (be64 sequence ++ (be64 epoch ++ be32 policy))))

unfoldable pub file_chunk_aad : Bytes → Bytes → Bytes → ℕ → Bytes
file_chunk_aad session transfer manifest_hash sequence =
    file_chunk_aad_prefix
    ++ len_prefixed session (len_prefixed transfer (len_prefixed manifest_hash (be64 sequence)))
