-- ===== src/Storage/Pack/Importing.antt =====
-- What `import` makes of the store.
use tessra.Prelude.{
  ◌≡◌, refl, sym, ap, List, [], ◌∷◌, Bytes, length, eqb, All, ◌∙◌, eqb_iff, eqb_refl, list_ord,
  nat_ord, Bool-cases, Option-cases, inl, inr, lookup, lookup-put, some,
}
use tessra.Core.Result.{ok}
use tessra.Core.Id.{ObjectId}
use tessra.Core.Hash.{object_id}
use tessra.Core.Hash.Domains.{IsInjective, IsTag}
use tessra.Core.Store.{MemoryStore, put_bytes}
use tessra.Core.Store.Laws.{IsAddressed, put_bytes-IsAddressed, lookup-put_bytes}
use tessra.Storage.Pack.{Record, read, put_records, import}
use tessra.Storage.Pack.Contents.{IsAuthentic, read-IsAuthentic}

module _ (blake3 : Bytes → Bytes) where
  put_bytes-kept :
      (s : MemoryStore) (tag bytes : Bytes) (id : ObjectId) (b : Bytes)
      → lookup id s ≡ some b
      → lookup id (put_bytes blake3 s tag bytes).1 ≡ some b
  unfolding put_bytes
  put_bytes-kept s tag bytes id b e = elim (Option-cases (lookup (object_id blake3 tag bytes) s)) [
    | inr (old, found) ↦ rw (put_bytes, found) e
    | inl fresh ↦ elim (Bool-cases (eqb (object_id blake3 tag bytes) id)) [
      | inl hit ↦
          let same = (eqb_iff (object_id blake3 tag bytes) id).0 hit in
          absurd (cc (ap (λ k. lookup k s) same))
      | inr miss ↦ rw (put_bytes, fresh, lookup-put (object_id blake3 tag bytes) bytes s id, miss) e
    ]
  ]

  put_records-kept :
      (rs : List Record) (s : MemoryStore) (id : ObjectId) (b : Bytes)
      → lookup id s ≡ some b
      → lookup id (put_records blake3 s rs) ≡ some b
  unfolding put_records
  put_records-kept [] s id b e = e
  put_records-kept (r ∷ rs) s id b e =
      put_records-kept rs (put_bytes blake3 s r.tag r.bytes).1 id b
        (put_bytes-kept s r.tag r.bytes id b e)

  -- A record with the ID of its content whose tag holds no newline.
  abbrev pub IsImportable : Record → Type 0
  IsImportable r = (r.id ≡ object_id blake3 r.tag r.bytes) × IsTag r.tag

  module _ (inj : IsInjective blake3) where
    put_records-lookup :
        (rs : List Record) (s : MemoryStore)
        → All IsImportable rs
        → IsAddressed blake3 s
        → All (λ r. lookup r.id (put_records blake3 s rs) ≡ some r.bytes) rs
    unfolding put_records
    put_records-lookup [] s h a = tt
    put_records-lookup (r ∷ rs) s (h, hs) a =
        let next = (put_bytes blake3 s r.tag r.bytes).1 in
        let stored : lookup r.id next ≡ some r.bytes =
          lookup-put_bytes blake3 inj s r.tag r.bytes r.id h.1 a
          ∙ rw (sym h.0, eqb_refl r.id) refl in
        (
          put_records-kept rs next r.id r.bytes stored,
          put_records-lookup rs next hs (put_bytes-IsAddressed blake3 inj s r.tag r.bytes h.1 a),
        )

    -- Importing a pack that `read` accepts, into a store whose entries are under the IDs of their
    -- contents, counts its records, after which each is found under its ID and every entry that was
    -- there is as before. The hash has no collision, and the tags hold no newline.
    pub import-stored :
        (s : MemoryStore) (bytes : Bytes) (rs : List Record)
        → read blake3 bytes ≡ ok rs
        → All (λ r. IsTag r.tag) rs
        → IsAddressed blake3 s
        → (s' : MemoryStore) × (import blake3 s bytes ≡ ok (length rs, s'))
          × All (λ r. lookup r.id s' ≡ some r.bytes) rs
          × ((id : ObjectId) (b : Bytes) → lookup id s ≡ some b → lookup id s' ≡ some b)
    unfolding import
    import-stored s bytes rs e t a = (
      put_records blake3 s rs,
      rw (e) refl,
      put_records-lookup rs s (both rs (read-IsAuthentic blake3 bytes rs e) t) a,
      put_records-kept rs s,
    )
      where
        both :
            (rs : List Record)
            → All (IsAuthentic blake3) rs
            → All (λ r. IsTag r.tag) rs
            → All IsImportable rs
        both [] h t = tt
        both (r ∷ rs) (h, hs) (t, ts) = ((sym h, t), both rs hs ts)
