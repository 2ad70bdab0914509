-- ===== src/Commands.antt =====
-- The results of commands: native/network_core/crates/network-core/src/commands/.
pub mod Ledger
pub mod History
pub mod Examples
