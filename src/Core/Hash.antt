-- ===== src/Core/Hash.antt =====
-- crates/tessra-core/src/hash.rs: object IDs with a domain for each type. BLAKE3 is a parameter.
pub mod Domains
use tessra.Prelude.{List, ◌++◌, Bytes, codes}
use tessra.Core.Id.{ObjectId}

module _ (blake3 : Bytes → Bytes) where
  -- What `object_id` feeds the hasher: "tessra:", the tag, a newline, the bytes.
  unfoldable pub object_id : Bytes → Bytes → ObjectId
  object_id tag bytes = blake3 (codes "tessra:" ++ (tag ++ (codes "\n" ++ bytes)))

  unfoldable pub blob_id : Bytes → ObjectId
  blob_id bytes = object_id (codes "blob") bytes

  unfoldable pub chunk_id : Bytes → ObjectId
  chunk_id bytes = object_id (codes "chunk") bytes

  unfoldable pub artifact_content_hash : Bytes → ObjectId
  artifact_content_hash bytes = object_id (codes "artifact-content") bytes

-- `DomainHasher`: what it was fed so far.
pub record DomainHasher : Type 0 where
  pub fed : Bytes

unfoldable pub hasher_new : Bytes → DomainHasher
hasher_new domain = record { fed = codes "tessra:" ++ (domain ++ codes "\n") }

unfoldable pub hasher_update : DomainHasher → Bytes → DomainHasher
hasher_update h bytes = record { fed = h.fed ++ bytes }

unfoldable pub hasher_finalize : (Bytes → Bytes) → DomainHasher → ObjectId
hasher_finalize blake3 h = blake3 h.fed
