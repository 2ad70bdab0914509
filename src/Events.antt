-- ===== src/Events.antt =====
-- The event lanes of the runtime:
-- native/network_core/crates/network-core/src/runtime_event_lanes.rs.
pub mod Lanes
pub mod Fairness
pub mod History
pub mod Bytes
mod Examples
