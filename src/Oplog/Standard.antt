-- ===== src/Oplog/Standard.antt =====
-- crates/tessra-oplog/src/standard.rs: whether a revision meets the standard of a line.
pub mod Data
pub mod Numbers
pub mod Context
pub mod Checks
pub mod Judges
pub mod Clauses
pub mod Evaluate
pub mod Runs
