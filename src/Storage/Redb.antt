-- ===== src/Storage/Redb.antt =====
-- crates/tessra-store/src/lib.rs: the store on a redb database, with its batches. The tables of the
-- database are an argument; a failure of the database, which returns before the commit, is left out.
use tessra.Prelude.{
  ℕ, zero, suc, ◌%◌, ◌≡◌, Bool, List, [], ◌∷◌, ◌++◌, Bytes, codes, Option, none, some,
  if◌then◌else◌, leb, length, take, drop, eqb, lookup, put, list_ord, nat_ord,
}
use tessra.Core.Result.{Result, ok, err, ◌>>=◌, Error}
use tessra.Core.Id.{EntityId, ObjectId, object_from_slice}
use tessra.Core.Hash.{object_id}
pub mod Tables
pub mod Refines
pub mod Batches
pub mod Heads
pub mod Runs
use tessra.Storage.Redb.Tables.{Table, Database}

pub record RedbStore (d : Database) : Type 0 where
  pub db : d.State
  pub pending : Option (List (ObjectId × Bytes))

-- `[tag_len u8][tag][bytes]`
unfoldable pub record_of : Bytes → Bytes → Bytes
record_of tag bytes = length tag % 256 ∷ (tag ++ bytes)

-- The bytes of each 32; what remains is left out.
unfoldable pub chunks : Bytes → ℕ → Bytes → List Bytes
chunks acc room [] = []
chunks acc zero (b ∷ bs) = (acc ++ (b ∷ [])) ∷ chunks [] 31 bs
chunks acc (suc room) (b ∷ bs) = chunks (acc ++ (b ∷ [])) room bs

abbrev pub push_id : Result ObjectId → List ObjectId → List ObjectId
push_id (ok i) is = i ∷ is
push_id (err e) is = is

unfoldable pub ids_of : List Bytes → List ObjectId
unfolding object_from_slice
ids_of [] = []
ids_of (c ∷ cs) = push_id (object_from_slice c) (ids_of cs)

unfoldable pub joined_ids : List ObjectId → Bytes
joined_ids [] = []
joined_ids (i ∷ is) = i ++ joined_ids is

-- `from_utf8_lossy` is an argument, and slices past the end panic.
unfoldable pub split_record : (Bytes → Bytes) → Bytes → Result (Bytes × Bytes)
split_record lossy [] = err Error.panic
split_record lossy (n ∷ rest) =
    if leb n (length rest) then ok (lossy (take n rest), drop n rest) else err Error.panic

module _ (lossy : Bytes → Bytes) where
  abbrev pub split_some : Option Bytes → Result (Option (Bytes × Bytes))
  split_some none = ok none
  split_some (some rec) = split_record lossy rec >>= λ r. ok (some r)

  abbrev pub bytes_of : Option Bytes → Result (Option Bytes)
  bytes_of none = ok none
  bytes_of (some rec) = split_record lossy rec >>= λ r. ok (some r.1)

  module _ (d : Database) where
    open d use {State, get, insert, keys}

    unfoldable pub begin_batch : RedbStore d → RedbStore d
    begin_batch s = elim s.pending [ none ↦ record s { pending = some [] } | some map ↦ s ]

    unfoldable pub insert_absent : State → ObjectId → Bytes → State
    insert_absent db id rec = elim (get db Table.objects id) [
      | none ↦ insert db Table.objects id rec
      | some old ↦ db
    ]

    -- The transaction of `end_batch`.
    unfoldable pub write_all : State → List (ObjectId × Bytes) → State
    unfolding insert_absent
    write_all db [] = db
    write_all db ((id, rec) ∷ rest) = write_all (insert_absent db id rec) rest

    unfoldable pub end_batch : RedbStore d → ℕ × RedbStore d
    unfolding write_all
    end_batch s = elim s.pending [
      | none ↦ (0, s)
      | some map ↦ (length map, record { db = write_all s.db map; pending = none })
    ]

    -- `entry(id).or_insert_with(..)`
    unfoldable pub add_pending :
        List (ObjectId × Bytes) → ObjectId → Bytes → List (ObjectId × Bytes)
    add_pending map id rec = elim (lookup id map) [ none ↦ put id rec map | some old ↦ map ]

    unfoldable pub put_record : RedbStore d → ObjectId → Bytes → RedbStore d
    unfolding insert_absent add_pending
    put_record s id rec = elim s.pending [
      | none ↦ record s { db = insert_absent s.db id rec }
      | some map ↦ record s { pending = some (add_pending map id rec) }
    ]

    unfoldable pub put_bytes :
        (Bytes → Bytes) → RedbStore d → Bytes → Bytes → ObjectId × RedbStore d
    unfolding put_record record_of
    put_bytes blake3 s tag bytes =
        let id = object_id blake3 tag bytes in (id, put_record s id (record_of tag bytes))

    unfoldable pub pending_record : Option (List (ObjectId × Bytes)) → ObjectId → Option Bytes
    pending_record none id = none
    pending_record (some map) id = lookup id map

    abbrev pub or_stored : Option Bytes → Option Bytes → Option Bytes
    or_stored none stored = stored
    or_stored (some rec) stored = some rec

    unfoldable pub get_bytes : RedbStore d → ObjectId → Result (Option Bytes)
    unfolding pending_record split_record
    get_bytes s id = bytes_of (or_stored (pending_record s.pending id) (get s.db Table.objects id))

    -- Of the objects that are written.
    unfoldable pub get_tagged : RedbStore d → ObjectId → Result (Option (Bytes × Bytes))
    unfolding split_record
    get_tagged s id = split_some (get s.db Table.objects id)

    unfoldable pub ids : RedbStore d → List ObjectId
    unfolding ids_of
    ids s = ids_of (keys s.db Table.objects)

    unfoldable pub len : RedbStore d → ℕ
    len s = length (keys s.db Table.objects)

    unfoldable pub meta : RedbStore d → Bytes → Option Bytes
    meta s key = get s.db Table.meta key

    unfoldable pub set_meta : RedbStore d → Bytes → Bytes → RedbStore d
    set_meta s key value = record s { db = insert s.db Table.meta key value }

    abbrev pub ids_in : Option Bytes → List ObjectId
    ids_in none = []
    ids_in (some b) = ids_of (chunks [] 31 b)

    unfoldable pub heads : RedbStore d → List ObjectId
    unfolding ids_of chunks
    heads s = ids_in (get s.db Table.meta (codes "heads"))

    unfoldable pub set_heads : RedbStore d → List ObjectId → RedbStore d
    unfolding joined_ids
    set_heads s hs = record s { db = insert s.db Table.meta (codes "heads") (joined_ids hs) }

    abbrev pub id_in : Option Bytes → Option ObjectId
    id_in none = none
    id_in (some b) = elim (object_from_slice b) [ ok i ↦ some i | err e ↦ none ]

    unfoldable pub idem_get : RedbStore d → EntityId → Bytes → Option ObjectId
    unfolding object_from_slice
    idem_get s author idem = id_in (get s.db Table.idem (author ++ idem))

    unfoldable pub idem_put : RedbStore d → EntityId → Bytes → ObjectId → RedbStore d
    idem_put s author idem op = record s { db = insert s.db Table.idem (author ++ idem) op }
