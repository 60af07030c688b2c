-- ===== src/Core/Trie/Proofs.antt =====
-- What the trie of trie.rs means, and that its operations keep to it.
pub mod Slots
pub mod Keys
pub mod Meaning
pub mod Nodes
pub mod Pair
pub mod Insert
