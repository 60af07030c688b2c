-- ===== src/Core/Store.antt =====
-- crates/tessra-core/src/store.rs: the object store contract and the in-memory store.
pub mod Laws
pub mod Runs
use tessra.Prelude.{Bool, List, [], ◌∷◌, Bytes, Option, none, some, if◌then◌else◌, is_some}
use tessra.Prelude.{lookup, put, eqb, list_ord, nat_ord}
use tessra.Core.Result.{Result, ok, err, ◌>>=◌, Error}
use tessra.Core.Id.{ObjectId}
use tessra.Core.Hash.{object_id}

-- `MemoryStore`: the map from IDs to bytes.
abbrev pub MemoryStore : Type 0
MemoryStore = List (ObjectId × Bytes)

-- A `TessraObject`: its tag, and `cbor::encode` and `cbor::decode` at its type.
pub record Codec (T : Type 0) : Type 0 where
  pub tag : Bytes
  pub encode : T → Bytes
  pub decode : Bytes → Result T

unfoldable pub get_bytes : MemoryStore → ObjectId → Option Bytes
get_bytes s id = lookup id s

unfoldable pub has : MemoryStore → ObjectId → Bool
unfolding get_bytes
has s id = is_some (get_bytes s id)

module _ (blake3 : Bytes → Bytes) where
  -- `entry(id).or_insert_with(...)`
  unfoldable pub put_bytes : MemoryStore → Bytes → Bytes → ObjectId × MemoryStore
  put_bytes s tag bytes =
      let id = object_id blake3 tag bytes in
      (id, elim (lookup id s) [ none ↦ put id bytes s | some _ ↦ s ])

module _ (blake3 : Bytes → Bytes) {T : Type 0} (c : Codec T) where
  -- `ObjectStore::put`
  unfoldable pub put_object : MemoryStore → T → ObjectId × MemoryStore
  unfolding put_bytes
  put_object s obj = put_bytes blake3 s c.tag (c.encode obj)

  -- `ObjectStore::get`, from what `get_bytes` returned.
  unfoldable pub checked : ObjectId → Option Bytes → Result T
  checked id none = err (Error.not_found id)
  checked id (some bytes) =
      if eqb (object_id blake3 c.tag bytes) id then c.decode bytes else err Error.store

  unfoldable pub get_object : MemoryStore → ObjectId → Result T
  unfolding get_bytes checked
  get_object s id = checked id (get_bytes s id)
