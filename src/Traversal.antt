-- ===== src/Traversal.antt =====
-- NAT traversal: native/network_core/crates/network-nat/src/.
pub mod Candidate
pub mod Exchange
pub mod Attempt
pub mod Finds
pub mod Signals
pub mod Calls
pub mod Payload
pub mod Probes
pub mod Examples
