-- ===== src/Connect.antt =====
-- Connectivity of a peer: native/network_core/crates/network-core/src/connect/.
pub mod Types
pub mod Intents
pub mod Completion
pub mod Lifecycle
pub mod Attempts
pub mod Calls
