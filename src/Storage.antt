-- ===== src/Storage.antt =====
-- crates/tessra-store: the database and the pack format.
pub mod Pack
pub mod Redb
