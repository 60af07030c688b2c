-- ===== src/Storage/Pack/Contents.antt =====
-- What a pack that `read` accepts holds, and what `import` makes of the store.
use tessra.Prelude.{
  ℕ, zero, suc, ◌≡◌, List, [], ◌∷◌, ◌++◌, Bytes, length, take, drop, eqb, All, ltb, subst, eqb_iff,
  list_ord, nat_ord, Bool-cases, inl, inr,
}
use tessra.Core.Result.{ok, ok-injective, >>=-eq-ok}
use tessra.Core.Id.{ObjectId}
use tessra.Core.Hash.{object_id}
use tessra.Storage.Pack.{
  Record, read_exact, read_varint, check_record, check_tag, read_record, read_records, read_body,
  read, magic, version,
}

module _ (blake3 : Bytes → Bytes) where
  -- A record whose ID is that of its content.
  abbrev pub IsAuthentic : Record → Type 0
  IsAuthentic r = object_id blake3 r.tag r.bytes ≡ r.id

  check_record-IsAuthentic :
      (id : ObjectId) (tag bytes rest : Bytes) (r : Record) (left : Bytes)
      → check_record blake3 id tag bytes rest ≡ ok (r, left)
      → IsAuthentic r
  unfolding check_record
  check_record-IsAuthentic id tag bytes rest r left e =
      elim (Bool-cases (eqb (object_id blake3 tag bytes) id)) [
        | inl same ↦
            subst IsAuthentic (cc (rw (same) at e))
              ((eqb_iff (object_id blake3 tag bytes) id).0 same)
        | inr other ↦ absurd (cc (rw (other) at e))
      ]

  read_record-IsAuthentic :
      (cur : Bytes) (r : Record) (left : Bytes)
      → read_record blake3 cur ≡ ok (r, left)
      → IsAuthentic r
  unfolding read_record
  read_record-IsAuthentic cur r left e =
      let (t1, _, e1) = >>=-eq-ok (read_exact 32 cur) _ e in
      let (t2, _, e2) = >>=-eq-ok (read_varint t1.1) _ e1 in
      let (t3, _, e3) = >>=-eq-ok (read_exact t2.0 t2.1) _ e2 in
      let (t4, _, e4) = >>=-eq-ok (check_tag blake3 t3.0) _ e3 in
      let (t5, _, e5) = >>=-eq-ok (read_varint t3.1) _ e4 in
      let (t6, _, e6) = >>=-eq-ok (read_exact t5.0 t5.1) _ e5 in
      check_record-IsAuthentic t1.0 t4 t6.0 t6.1 r left e6

  read_records-IsAuthentic :
      (fuel : ℕ) (cur : Bytes) (rs : List Record)
      → read_records blake3 fuel cur ≡ ok rs
      → All IsAuthentic rs
  unfolding read_records
  read_records-IsAuthentic fuel [] rs e = subst (λ l. All IsAuthentic l) (ok-injective e) tt
  read_records-IsAuthentic zero (b ∷ cur) rs e = absurd (cc)
  read_records-IsAuthentic (suc fuel) (b ∷ cur) rs e =
      let (t, e0, e1) = >>=-eq-ok (read_record blake3 (b ∷ cur)) _ e in
      let (ts, e2, e3) = >>=-eq-ok (read_records blake3 fuel t.1) _ e1 in
      subst (λ l. All IsAuthentic l) (ok-injective e3)
        (read_record-IsAuthentic (b ∷ cur) t.0 t.1 e0, read_records-IsAuthentic fuel t.1 ts e2)

  read_body-IsAuthentic :
      (body trailer : Bytes) (rs : List Record)
      → read_body blake3 body trailer ≡ ok rs
      → All IsAuthentic rs
  unfolding read_body
  read_body-IsAuthentic body trailer rs e = elim (Bool-cases (eqb (blake3 body) trailer)) [
    | inr other ↦ absurd (cc (rw (other) at e))
    | inl same ↦ elim (Bool-cases (eqb (take 5 body) (magic ++ version ∷ []))) [
      | inr other ↦ absurd (cc (rw (same, other) at e))
      | inl known ↦ read_records-IsAuthentic (length body) (drop 5 body) rs (rw (same, known) at e)
    ]
  ]

  -- Every record of a pack that `read` accepts has the ID of its content.
  pub read-IsAuthentic :
      (bytes : Bytes) (rs : List Record) → read blake3 bytes ≡ ok rs → All IsAuthentic rs
  unfolding read
  read-IsAuthentic bytes rs e = elim (Bool-cases (ltb (length bytes) 37)) [
    | inl short ↦ absurd (cc (rw (short) at e))
    | inr long ↦ read_body-IsAuthentic _ _ rs (rw (long) at e)
  ]
