-- ===== src/Crypto.antt =====
-- Application cryptography of a session: native/network_core/crates/network-core/src/crypto/.
pub mod Types
pub mod Replay
pub mod Context
pub mod Sessions
pub mod Aad
pub mod Examples
