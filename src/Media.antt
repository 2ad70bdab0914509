-- ===== src/Media.antt =====
-- Screen video: native/network_core/crates/network-webrtc/src/media/.
pub mod AnnexB
pub mod Queue
pub mod Qos
pub mod Examples
