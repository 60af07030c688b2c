-- ===== src/Storage/Redb/Refines.antt =====
-- The store on the database refines the in-memory store, with its batches open or not.
use tessra.Prelude.{
  ℕ, ◌+◌, ◌<◌, ◌%◌, ◌≡◌, refl, sym, ap, ◌∙◌, subst, arith, true, List, [], ◌∷◌, ◌++◌, Bytes, Option,
  none, some, if◌then◌else◌, leb, length, length-append, take-length_append, drop-length_append,
  eqb, eqb_iff, lookup, lookup-put, Bool-cases, Option-cases, inl, inr, ◌⊎◌, list_ord, nat_ord,
}
use tessra.Core.Result.{ok}
use tessra.Core.Id.{ObjectId}
use tessra.Core.Hash.{object_id}
use tessra.Core.Hash.Domains.{IsTag, IsInjective, object_id-injective}
use tessra.Core.Store
use tessra.Core.Store.{MemoryStore}
use tessra.Storage.Redb.Tables.{Table, Database}
use tessra.Storage.Redb.{
  RedbStore, record_of, split_record, bytes_of, insert_absent, write_all, add_pending,
  pending_record, or_stored, get_bytes,
}

-- A tag of at most 255 bytes, whose length fits in one.
abbrev pub IsShort : Bytes → Type 0
IsShort tag = length tag < 256

split-record_of :
    (lossy : Bytes → Bytes) (tag bytes : Bytes)
    → IsShort tag
    → split_record lossy (record_of tag bytes) ≡ ok (lossy tag, bytes)
unfolding split_record record_of
split-record_of lossy tag bytes h =
    let size : length tag % 256 ≡ length tag = omega arith in
    rw
      (
        size,
        fits (length tag) (length bytes) (length (tag ++ bytes)) (length-append tag bytes),
        take-length_append tag bytes,
        drop-length_append tag bytes,
      )
      refl
  where
    fits : (a b n : ℕ) → n ≡ a + b → leb a n ≡ true
    fits a b n e = ground arith

module _ (lossy : Bytes → Bytes) (d : Database) (blake3 : Bytes → Bytes)
    (inj : IsInjective blake3) where
  -- The record of an object under its ID.
  abbrev pub IsRecord : ObjectId → Bytes → Type 0
  IsRecord id rec =
      (tag : Bytes) × (bytes : Bytes) × (rec ≡ record_of tag bytes)
      × IsShort tag
      × IsTag tag
      × (object_id blake3 tag bytes ≡ id)

  -- Every record that the tables or the batch hold is that of an object under its ID.
  abbrev pub IsStore : RedbStore d → Type 0
  IsStore s =
      ((id : ObjectId) (rec : Bytes) → d.get s.db Table.objects id ≡ some rec → IsRecord id rec)
      × ((id : ObjectId) (rec : Bytes)
          → pending_record lossy d s.pending id ≡ some rec
          → IsRecord id rec)

  -- Both stores return the same bytes for every ID.
  abbrev pub IsSame : RedbStore d → MemoryStore → Type 0
  IsSame s m = (id : ObjectId) → get_bytes lossy d s id ≡ ok (Store.get_bytes m id)

  pub read-IsRecord :
      (id rec : Bytes) (r : IsRecord id rec) → bytes_of lossy (some rec) ≡ ok (some r.1)
  read-IsRecord id rec (tag, bytes, e, h, t, o) = rw (e, split-record_of lossy tag bytes h) refl

  -- Two records of one ID are read as the same bytes.
  pub same_read :
      (id a b : Bytes)
      → IsRecord id a
      → IsRecord id b
      → bytes_of lossy (some a) ≡ bytes_of lossy (some b)
  same_read id a b r q =
      let (tag, bytes, e, h, t, o) = r in
      let (tag', bytes', e', h', t', o') = q in
      let equal = object_id-injective blake3 tag tag' bytes bytes' inj t t' (o ∙ sym o') in
      read-IsRecord id a r ∙ ap (λ x. ok (some x)) equal.1 ∙ sym (read-IsRecord id b q)

  -- The first of two that is there.
  or_else-none : (o : Option Bytes) → or_stored lossy d o none ≡ o
  or_else-none none = refl
  or_else-none (some x) = refl

  pub get-insert_absent :
      (db : d.State) (id rec j : Bytes)
      → d.get (insert_absent lossy d db id rec) Table.objects j
        ≡ or_stored lossy d (d.get db Table.objects j) (if eqb id j then some rec else none)
  unfolding insert_absent
  get-insert_absent db id rec j = elim (Option-cases (d.get db Table.objects id)) [
    | inr (old, e) ↦
        rw (insert_absent, e)
          (elim (Bool-cases (eqb id j)) [
            | inl hit ↦
                let at_j : d.get db Table.objects j ≡ some old =
                  ap (d.get db Table.objects) (sym ((eqb_iff id j).0 hit)) ∙ e in
                rw at_j refl
            | inr miss ↦ rw miss (sym (or_else-none (d.get db Table.objects j)))
          ])
    | inl e ↦
        rw (insert_absent, e, d.get_insert db Table.objects id rec j)
          (elim (Bool-cases (eqb id j)) [
            | inl hit ↦
                let at_j : d.get db Table.objects j ≡ none =
                  ap (d.get db Table.objects) (sym ((eqb_iff id j).0 hit)) ∙ e in
                rw (at_j, hit) refl
            | inr miss ↦ rw miss (sym (or_else-none (d.get db Table.objects j)))
          ])
  ]

  or_stored_assoc :
      (a b c : Option Bytes)
      → or_stored lossy d (or_stored lossy d a b) c ≡ or_stored lossy d a (or_stored lossy d b c)
  or_stored_assoc none b c = refl
  or_stored_assoc (some x) b c = refl

  -- The transaction adds what the tables do not have.
  pub get-write_all :
      (db : d.State) (map : List (ObjectId × Bytes)) (j : Bytes)
      → d.get (write_all lossy d db map) Table.objects j
        ≡ or_stored lossy d (d.get db Table.objects j) (lookup j map)
  unfolding write_all lookup
  get-write_all db [] j = sym (or_else-none (d.get db Table.objects j))
  get-write_all db ((id, rec) ∷ rest) j =
      get-write_all (insert_absent lossy d db id rec) rest j
      ∙ ap (λ o. or_stored lossy d o (lookup j rest)) (get-insert_absent db id rec j)
      ∙ or_stored_assoc (d.get db Table.objects j) (if eqb id j then some rec else none)
          (lookup j rest)
      ∙ ap (or_stored lossy d (d.get db Table.objects j))
          (elim (Bool-cases (eqb id j)) [ inl hit ↦ rw hit refl | inr miss ↦ rw miss refl ])

  pub lookup-add_pending :
      (map : List (ObjectId × Bytes)) (id rec j : Bytes)
      → lookup j (add_pending lossy d map id rec)
        ≡ or_stored lossy d (lookup j map) (if eqb id j then some rec else none)
  unfolding add_pending
  lookup-add_pending map id rec j = elim (Option-cases (lookup id map)) [
    | inr (old, e) ↦
        rw (add_pending, e)
          (elim (Bool-cases (eqb id j)) [
            | inl hit ↦
                let at_j : lookup j map ≡ some old =
                  ap (λ k. lookup k map) (sym ((eqb_iff id j).0 hit)) ∙ e in
                rw at_j refl
            | inr miss ↦ rw miss (sym (or_else-none (lookup j map)))
          ])
    | inl e ↦
        rw (add_pending, e, lookup-put id rec map j)
          (elim (Bool-cases (eqb id j)) [
            | inl hit ↦
                let at_j : lookup j map ≡ none =
                  ap (λ k. lookup k map) (sym ((eqb_iff id j).0 hit)) ∙ e in
                rw (at_j, hit) refl
            | inr miss ↦ rw miss (sym (or_else-none (lookup j map)))
          ])
  ]

  pub or_stored-some :
      (a b : Option Bytes) (r : Bytes)
      → or_stored lossy d a b ≡ some r
      → (a ≡ some r) ⊎ (b ≡ some r)
  or_stored-some none b r h = inr h
  or_stored-some (some x) b r h = inl h

  -- What a map holds, and after an entry that it may have.
  abbrev pub Holds : Option Bytes → ObjectId → Type 0
  Holds o id = (rec : Bytes) → o ≡ some rec → IsRecord id rec

  pub Holds-added :
      (o : Option Bytes) (id rec j : Bytes)
      → Holds o j
      → IsRecord id rec
      → Holds (or_stored lossy d o (if eqb id j then some rec else none)) j
  Holds-added o id rec j h r x e =
      elim (or_stored-some o (if eqb id j then some rec else none) x e) [
        | inl old ↦ h x old
        | inr new ↦ elim (Bool-cases (eqb id j)) [
          | inl hit ↦
              let same : some rec ≡ some x = rw hit at new in
              let equal : rec ≡ x = cc in
              subst (λ k. IsRecord k x) ((eqb_iff id j).0 hit) (subst (λ y. IsRecord id y) equal r)
          | inr miss ↦ absurd (nothing (rw miss at new))
        ]
      ]
    where
      nothing : none ≡ some x → ⊥
      nothing h = cc

  -- A record that stands already is read as the one that would be added.
  pub read_added :
      (o stored : Option Bytes) (id rec j : Bytes)
      → Holds o j
      → IsRecord id rec
      → bytes_of lossy
          (or_stored lossy d (or_stored lossy d o (if eqb id j then some rec else none)) stored)
        ≡ (if eqb id j
            then bytes_of lossy (some rec)
            else bytes_of lossy (or_stored lossy d o stored))
  read_added none stored id rec j h r = elim (Bool-cases (eqb id j)) [
    | inl hit ↦ rw hit refl
    | inr miss ↦ rw miss refl
  ]
  read_added (some old) stored id rec j h r = elim (Bool-cases (eqb id j)) [
    | inl hit ↦
        rw hit
          (same_read j old rec (h old refl) (subst (λ k. IsRecord k rec) ((eqb_iff id j).0 hit) r))
    | inr miss ↦ rw miss refl
  ]
