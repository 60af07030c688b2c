-- ===== src/Core.antt =====
-- crates/tessra-core: identities, errors, hashing, the object store and the trie.
pub mod Result
pub mod Value
pub mod State
pub mod Id
pub mod Hash
pub mod Cbor
pub mod Sig
pub mod Store
pub mod Trie
