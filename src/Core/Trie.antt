-- ===== src/Core/Trie.antt =====
-- crates/tessra-core/src/trie.rs: the persistent hash array mapped trie.
pub mod Node
pub mod Ops
pub mod Merge
pub mod Proofs
pub mod InMemory
pub mod Sample
pub mod Runs
