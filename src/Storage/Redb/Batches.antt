-- ===== src/Storage/Redb/Batches.antt =====
-- Puts and batches of the store on the database, step by step beside the in-memory store.
use tessra.Prelude.{
  ◌≡◌, refl, sym, ap, ◌∙◌, Bool, true, false, List, [], ◌∷◌, Bytes, Option, none, some,
  if◌then◌else◌, eqb, lookup, inl, inr, ◌⊎◌, All, list_ord, nat_ord,
}
use tessra.Core.Result.{Result, ok}
use tessra.Core.Id.{ObjectId}
use tessra.Core.Hash.{object_id}
use tessra.Core.Hash.Domains.{IsTag, IsInjective}
use tessra.Core.Store
use tessra.Core.Store.{MemoryStore}
use tessra.Core.Store.Laws.{IsAddressed, lookup-put_bytes, put_bytes-IsAddressed}
use tessra.Storage.Redb.Tables.{Table, Database}
use tessra.Storage.Redb.{
  RedbStore, record_of, bytes_of, begin_batch, end_batch, put_record, put_bytes, pending_record,
  or_stored, get_bytes,
}
use tessra.Storage.Redb.Refines.{
  IsShort, IsRecord, IsStore, IsSame, Holds, read-IsRecord, same_read, get-insert_absent,
  get-write_all, lookup-add_pending, or_stored-some, Holds-added, read_added,
}

-- What a client does to the store.
pub data Action : Type 0 where
  put_object : Bytes → Bytes → Action
  start_batch stop_batch : Action

abbrev pub IsFine : Action → Type 0
IsFine (Action.put_object tag bytes) = IsShort tag × IsTag tag
IsFine Action.start_batch = Unit {0}
IsFine Action.stop_batch = Unit {0}

module _ (lossy : Bytes → Bytes) (d : Database) (blake3 : Bytes → Bytes) where
  abbrev pub act : Action → RedbStore d → RedbStore d
  act (Action.put_object tag bytes) s = (put_bytes lossy d blake3 s tag bytes).1
  act Action.start_batch s = begin_batch lossy d s
  act Action.stop_batch s = (end_batch lossy d s).1

  -- A batch is nothing to the in-memory store.
  abbrev pub act_in_memory : Action → MemoryStore → MemoryStore
  act_in_memory (Action.put_object tag bytes) m = (Store.put_bytes blake3 m tag bytes).1
  act_in_memory Action.start_batch m = m
  act_in_memory Action.stop_batch m = m

  abbrev pub run : List Action → RedbStore d → RedbStore d
  run [] s = s
  run (a ∷ as') s = run as' (act a s)

  abbrev pub run_in_memory : List Action → MemoryStore → MemoryStore
  run_in_memory [] m = m
  run_in_memory (a ∷ as') m = run_in_memory as' (act_in_memory a m)

module _ (lossy : Bytes → Bytes) (d : Database) (blake3 : Bytes → Bytes)
    (inj : IsInjective blake3) where
  put_record-IsStore :
      (db : d.State) (pending : Option (List (ObjectId × Bytes))) (id rec : Bytes)
      → IsStore lossy d blake3 inj (record { db = db; pending = pending })
      → IsRecord lossy d blake3 inj id rec
      → IsStore lossy d blake3 inj
          (put_record lossy d (record { db = db; pending = pending }) id rec)
  unfolding put_record pending_record
  put_record-IsStore db none id rec (h, k) r = (
    λ j x e.
        Holds-added lossy d blake3 inj (d.get db Table.objects j) id rec j (h j) r x
          (sym (get-insert_absent lossy d blake3 inj db id rec j) ∙ e),
    λ j x e. cc,
  )
  put_record-IsStore db (some map) id rec (h, k) r = (
    h,
    λ j x e.
        Holds-added lossy d blake3 inj (lookup j map) id rec j (k j) r x
          (sym (lookup-add_pending lossy d blake3 inj map id rec j) ∙ e),
  )

  get_bytes-put_record :
      (db : d.State) (pending : Option (List (ObjectId × Bytes))) (id rec j : Bytes)
      → IsStore lossy d blake3 inj (record { db = db; pending = pending })
      → IsRecord lossy d blake3 inj id rec
      → get_bytes lossy d (put_record lossy d (record { db = db; pending = pending }) id rec) j ≡ (
          if eqb id j
          then bytes_of lossy (some rec)
          else get_bytes lossy d (record { db = db; pending = pending }) j)
  unfolding put_record get_bytes pending_record
  get_bytes-put_record db none id rec j (h, k) r =
      ap (bytes_of lossy) (
        get-insert_absent lossy d blake3 inj db id rec j
        ∙ sym (
            or_none
              (or_stored lossy d (d.get db Table.objects j) (if eqb id j then some rec else none))))
      ∙ read_added lossy d blake3 inj (d.get db Table.objects j) none id rec j (h j) r
      ∙ ap (λ o. if eqb id j then bytes_of lossy (some rec) else bytes_of lossy o)
          (or_none (d.get db Table.objects j))
    where
      or_none : (o : Option Bytes) → or_stored lossy d o none ≡ o
      or_none none = refl
      or_none (some x) = refl
  get_bytes-put_record db (some map) id rec j (h, k) r =
      ap (λ o. bytes_of lossy (or_stored lossy d o (d.get db Table.objects j)))
        (lookup-add_pending lossy d blake3 inj map id rec j)
      ∙ read_added lossy d blake3 inj (lookup j map) (d.get db Table.objects j) id rec j (k j) r

  -- Ending a batch leaves what is read as it is.
  end_batch-kept :
      (db : d.State) (pending : Option (List (ObjectId × Bytes)))
      → IsStore lossy d blake3 inj (record { db = db; pending = pending })
      → IsStore lossy d blake3 inj (end_batch lossy d (record { db = db; pending = pending })).1
        × ((j : ObjectId)
            → get_bytes lossy d (end_batch lossy d (record { db = db; pending = pending })).1 j
              ≡ get_bytes lossy d (record { db = db; pending = pending }) j)
  unfolding end_batch get_bytes pending_record
  end_batch-kept db none h = (h, λ j. refl)
  end_batch-kept db (some map) (h, k) = (
    (
      λ j x e. from_either j x (
          or_stored-some lossy d blake3 inj (d.get db Table.objects j) (lookup j map) x
            (sym (get-write_all lossy d blake3 inj db map j) ∙ e)),
      λ j x e. cc,
    ),
    λ j.
        ap (bytes_of lossy) (get-write_all lossy d blake3 inj db map j)
        ∙ swap j (d.get db Table.objects j) (lookup j map) (h j) (k j),
  )
    where
      from_either :
          (j x : Bytes)
          → (d.get db Table.objects j ≡ some x) ⊎ (lookup j map ≡ some x)
          → IsRecord lossy d blake3 inj j x
      from_either j x (inl e) = h j x e
      from_either j x (inr e) = k j x e

      swap :
          (j : Bytes) (a b : Option Bytes)
          → Holds lossy d blake3 inj a j
          → Holds lossy d blake3 inj b j
          → bytes_of lossy (or_stored lossy d a b) ≡ bytes_of lossy (or_stored lossy d b a)
      swap j none none f g = refl
      swap j none (some y) f g = refl
      swap j (some x) none f g = refl
      swap j (some x) (some y) f g = same_read lossy d blake3 inj j x y (f x refl) (g y refl)

  begin_batch-kept :
      (db : d.State) (pending : Option (List (ObjectId × Bytes)))
      → IsStore lossy d blake3 inj (record { db = db; pending = pending })
      → IsStore lossy d blake3 inj (begin_batch lossy d (record { db = db; pending = pending }))
        × ((j : ObjectId)
            → get_bytes lossy d (begin_batch lossy d (record { db = db; pending = pending })) j
              ≡ get_bytes lossy d (record { db = db; pending = pending }) j)
  unfolding begin_batch get_bytes pending_record lookup
  begin_batch-kept db none (h, k) = ((h, λ j x e. cc), λ j. refl)
  begin_batch-kept db (some map) h = (h, λ j. refl)

  -- One step, with what it keeps.
  act-IsSame :
      (a : Action) (s : RedbStore d) (m : MemoryStore)
      → IsFine a
      → IsStore lossy d blake3 inj s
      → IsAddressed blake3 m
      → IsSame lossy d blake3 inj s m
      → IsStore lossy d blake3 inj (act lossy d blake3 a s)
        × IsAddressed blake3 (act_in_memory lossy d blake3 a m)
        × IsSame lossy d blake3 inj (act lossy d blake3 a s) (act_in_memory lossy d blake3 a m)
  unfolding put_bytes Store.get_bytes
  act-IsSame (Action.put_object tag bytes) s m (short, t) h ad same =
      let id = object_id blake3 tag bytes in
      let r : IsRecord lossy d blake3 inj id (record_of tag bytes) =
        (tag, bytes, refl, short, t, refl) in
      (
        put_record-IsStore s.db s.pending id (record_of tag bytes) h r,
        put_bytes-IsAddressed blake3 inj m tag bytes t ad,
        λ j.
            get_bytes-put_record s.db s.pending id (record_of tag bytes) j h r
            ∙ either (eqb id j) _ (read-IsRecord lossy d blake3 inj id (record_of tag bytes) r)
                (get_bytes lossy d s j) (lookup j m) (same j)
            ∙ ap ok (sym (lookup-put_bytes blake3 inj m tag bytes j t ad)),
      )
    where
      either :
          (b : Bool) (x : Result (Option Bytes))
          → x ≡ ok (some bytes)
          → (y : Result (Option Bytes)) (z : Option Bytes) → y ≡ ok z
          → (if b then x else y) ≡ ok (if b then some bytes else z)
      either true x e y z f = e
      either false x e y z f = f
  act-IsSame Action.start_batch s m f h ad same =
      let (k, g) = begin_batch-kept s.db s.pending h in (k, ad, λ j. g j ∙ same j)
  act-IsSame Action.stop_batch s m f h ad same =
      let (k, g) = end_batch-kept s.db s.pending h in (k, ad, λ j. g j ∙ same j)

  -- Where the hash has no collision, and the tags are of at most 255 bytes and hold no newline, a store
  -- on the database whose records stand under their IDs, and an in-memory store that returns the same
  -- bytes, return the same bytes after any puts, whenever batches are begun and ended.
  pub run-IsSame :
      (actions : List Action) (s : RedbStore d) (m : MemoryStore)
      → All IsFine actions
      → IsStore lossy d blake3 inj s
      → IsAddressed blake3 m
      → IsSame lossy d blake3 inj s m
      → IsSame lossy d blake3 inj
          (run lossy d blake3 actions s)
          (run_in_memory lossy d blake3 actions m)
  run-IsSame [] s m f h ad same = same
  run-IsSame (a ∷ as') s m (f, fs) h ad same =
      let (h', ad', same') = act-IsSame a s m f h ad same in
      run-IsSame as' (act lossy d blake3 a s) (act_in_memory lossy d blake3 a m) fs h' ad' same'
