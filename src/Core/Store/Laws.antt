-- ===== src/Core/Store/Laws.antt =====
-- The contract of the in-memory store.
use tessra.Prelude.{true, false, ◌≡◌, ◌≢◌, ap, Bytes, some}
use tessra.Prelude.{if◌then◌else◌, lookup, lookup-put, eqb, eqb_iff, eqb_refl, list_ord, nat_ord}
use tessra.Prelude.{Option-cases, Bool-cases, ◌⊎◌, inl, inr, sym, ◌∙◌}
use tessra.Core.Result.{err, Error}
use tessra.Core.Id.{ObjectId}
use tessra.Core.Hash.{object_id}
use tessra.Core.Hash.Domains.{IsTag, IsInjective, object_id-injective}
use tessra.Core.Store.{MemoryStore, Codec, put_bytes, put_object, get_object, checked}

-- Every entry of the store is the bytes of some type, under their ID.
abbrev pub IsAddressed : (Bytes → Bytes) → MemoryStore → Type 0
IsAddressed blake3 s =
    (id : ObjectId) (bytes : Bytes)
    → lookup id s ≡ some bytes
    → (tag : Bytes) × IsTag tag × (object_id blake3 tag bytes ≡ id)

module _ (blake3 : Bytes → Bytes) (inj : IsInjective blake3) where
  -- Bytes that are stored can be read, and an entry is never overwritten.
  pub lookup-put_bytes :
      (s : MemoryStore) (tag bytes : Bytes) (id : ObjectId)
      → IsTag tag
      → IsAddressed blake3 s
      → lookup id (put_bytes blake3 s tag bytes).1
        ≡ (if eqb (object_id blake3 tag bytes) id then some bytes else lookup id s)
  unfolding put_bytes
  lookup-put_bytes s tag bytes id t h =
      elim (Option-cases (lookup (object_id blake3 tag bytes) s)) [
        | inl fresh ↦ rw (put_bytes, fresh) (lookup-put (object_id blake3 tag bytes) bytes s id)
        | inr (old, e) ↦ rw (put_bytes, e) (present old e)
      ]
    where
      same : (old : Bytes) → lookup (object_id blake3 tag bytes) s ≡ some old → old ≡ bytes
      same old e =
          let (tag', t', e') = h _ old e in
          (object_id-injective blake3 tag' tag old bytes inj t' t e').1

      present :
          (old : Bytes)
          → lookup (object_id blake3 tag bytes) s ≡ some old
          → lookup id s ≡ (if eqb (object_id blake3 tag bytes) id then some bytes else lookup id s)
      present old e = elim (Bool-cases (eqb (object_id blake3 tag bytes) id)) [
        | inl hit ↦ rw hit (
            ap (λ k. lookup k s) (sym ((eqb_iff (object_id blake3 tag bytes) id).0 hit))
            ∙ e
            ∙ ap some (same old e))
        | inr miss ↦ rw miss
      ]

  pub put_bytes-IsAddressed :
      (s : MemoryStore) (tag bytes : Bytes)
      → IsTag tag
      → IsAddressed blake3 s
      → IsAddressed blake3 (put_bytes blake3 s tag bytes).1
  put_bytes-IsAddressed s tag bytes t h id b e =
      elim (Bool-cases (eqb (object_id blake3 tag bytes) id)) [
        | inl hit ↦ (
          tag,
          t,
          ap (object_id blake3 tag) (stored hit) ∙ (eqb_iff (object_id blake3 tag bytes) id).0 hit,
        )
        | inr miss ↦ h id b (rw (lookup-put_bytes s tag bytes id t h, miss) at e)
      ]
    where
      stored : eqb (object_id blake3 tag bytes) id ≡ true → b ≡ bytes
      stored hit = cc (rw (lookup-put_bytes s tag bytes id t h, hit) at e)

  module _ {T : Type 0} (c : Codec T) (is_tag : IsTag c.tag) where
    -- An object that was put is read back as its encoding decodes, and every other object reads as
    -- before.
    pub get-put :
        (s : MemoryStore) (obj : T) (id : ObjectId)
        → IsAddressed blake3 s
        → get_object blake3 c (put_object blake3 c s obj).1 id ≡ (
            if eqb (object_id blake3 c.tag (c.encode obj)) id
            then c.decode (c.encode obj)
            else get_object blake3 c s id)
    unfolding get_object put_object
    get-put s obj id h =
        ap (checked blake3 c id) (lookup-put_bytes s c.tag (c.encode obj) id is_tag h)
        ∙ found (Bool-cases (eqb (object_id blake3 c.tag (c.encode obj)) id))
      where
        found :
            (eqb (object_id blake3 c.tag (c.encode obj)) id ≡ true)
              ⊎ (eqb (object_id blake3 c.tag (c.encode obj)) id ≡ false)
            → checked blake3 c id (
                if eqb (object_id blake3 c.tag (c.encode obj)) id
                then some (c.encode obj)
                else lookup id s)
              ≡ (if eqb (object_id blake3 c.tag (c.encode obj)) id
                  then c.decode (c.encode obj)
                  else checked blake3 c id (lookup id s))
        found (inl hit) = rw (hit, checked, hit)
        found (inr miss) = rw miss

    -- The bytes of one type are refused when they are fetched as another.
    get_wrong_type :
        (s : MemoryStore) (tag bytes : Bytes)
        → IsAddressed blake3 s
        → IsTag tag
        → tag ≢ c.tag
        → get_object blake3 c (put_bytes blake3 s tag bytes).1 (object_id blake3 tag bytes)
          ≡ err Error.store
    unfolding get_object
    get_wrong_type s tag bytes h t ne =
        ap (checked blake3 c (object_id blake3 tag bytes)) stored ∙ rw (checked, other)
      where
        stored : lookup (object_id blake3 tag bytes) (put_bytes blake3 s tag bytes).1 ≡ some bytes
        stored = rw (lookup-put_bytes s tag bytes (object_id blake3 tag bytes) t h, eqb_refl)

        other : eqb (object_id blake3 c.tag bytes) (object_id blake3 tag bytes) ≡ false
        other =
            elim (Bool-cases (eqb (object_id blake3 c.tag bytes) (object_id blake3 tag bytes))) [
              | inl e ↦ absurd (
                  ne (
                    sym
                      (object_id-injective blake3 c.tag tag bytes bytes inj is_tag t (
                        (eqb_iff (object_id blake3 c.tag bytes) (object_id blake3 tag bytes)).0
                          e)).0))
              | inr n ↦ n
            ]
