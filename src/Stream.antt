-- ===== src/Stream.antt =====
-- Reliable streams: native/network_core/crates/network-core/src/stream/.
pub mod Codec
pub mod Frames
pub mod Preamble
pub mod Entry
pub mod Registry
pub mod Buffer
pub mod Pipe
pub mod Calls
pub mod Examples
