-- ===== src/Delivery/Receiver.antt =====
-- The receiving side of native/network_core/crates/network-core/src/delivery/.
pub mod Channel
pub mod Release
pub mod Dedup
pub mod History
pub mod Once
pub mod Remembered
pub mod Repeats
pub mod Closing
pub mod Examples
