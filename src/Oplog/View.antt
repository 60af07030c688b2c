-- ===== src/Oplog/View.antt =====
-- crates/tessra-oplog/src/view.rs: the mutable repository state at one operation.
pub mod Pointer
pub mod Data
pub mod Parts
pub mod Merge
pub mod Apply
pub mod Runs
