-- ===== src/Oplog.antt =====
-- crates/tessra-oplog: the operation log.
pub mod Glob
pub mod View
pub mod Walk
pub mod Dag
pub mod Capability
pub mod Standard
pub mod Verify
