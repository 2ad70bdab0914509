-- ===== src/Delivery.antt =====
-- Application-level delivery across connections:
-- native/network_core/crates/network-core/src/delivery/.
pub mod Keys
pub mod Types
pub mod Store
pub mod Message
pub mod Send
pub mod Recovery
pub mod Ordered
pub mod Timeouts
pub mod Incoming
pub mod Completion
pub mod Sender
pub mod Receiver
pub mod Examples
