-- ===== src/Delivery/Sender.antt =====
-- The invariant of the sending side, kept by every call and so after every history of calls.
pub mod Sound
pub mod Calls
pub mod History
pub mod Outcomes
pub mod Snapshot
pub mod Backoff
pub mod Enqueue
