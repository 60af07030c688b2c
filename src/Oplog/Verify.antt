-- ===== src/Oplog/Verify.antt =====
-- crates/tessra-oplog/src/verify.rs: the verification of an operation.
pub mod Objects
pub mod Trees
pub mod Scope
pub mod Landed
pub mod Legality
pub mod Steps
pub mod Runs
