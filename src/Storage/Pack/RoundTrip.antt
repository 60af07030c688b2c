-- ===== src/Storage/Pack/RoundTrip.antt =====
-- A pack is read back from what `write` writes.
use tessra.Prelude.{
  ℕ, zero, suc, ◌-◌, ◌^◌, ◌<◌, ◌≤◌, ◌≡◌, refl, sym, ap, arith, List, [], ◌∷◌, ◌++◌, Bytes, length,
  All, true, false, ltb, ◌∙◌, subst, append_assoc, length-append, take-length_append,
  drop-length_append, eqb_refl, list_ord, nat_ord,
}
use tessra.Core.Result.{ok, ◌>>=◌}
use tessra.Core.Hash.{object_id}
use tessra.Storage.Pack.{
  Record, read_exact, write_varint, is_utf8, write_record, write_records, write_body, write,
  check_record, check_tag, read_record, read_records, read_body, read, magic, version,
}
use tessra.Storage.Pack.Varint.{read_varint-write_varint}

read_exact-length_append : (xs rest : Bytes) → read_exact (length xs) (xs ++ rest) ≡ ok (xs, rest)
unfolding read_exact
read_exact-length_append [] rest = refl
read_exact-length_append (x ∷ xs) rest = rw (read_exact-length_append xs rest) refl

module _ (blake3 : Bytes → Bytes) (hash_size : (x : Bytes) → length (blake3 x) ≡ 32) where
  -- A record of the writer: its ID is that of its content, its tag is text and its sizes fit.
  abbrev pub IsRecord : Record → Type 0
  IsRecord r =
      (r.id ≡ object_id blake3 r.tag r.bytes)
      × (is_utf8 r.tag ≡ true)
      × (length r.tag < 2 ^ 64)
      × (length r.bytes < 2 ^ 64)

  id_size : (r : Record) → IsRecord r → length r.id ≡ 32
  unfolding object_id
  id_size r h = ap length h.0 ∙ hash_size _

  read_id :
      (r : Record) (rest : Bytes) → IsRecord r → read_exact 32 (r.id ++ rest) ≡ ok (r.id, rest)
  read_id r rest h =
      subst (λ n. read_exact n (r.id ++ rest) ≡ ok (r.id, rest)) (id_size r h)
        (read_exact-length_append r.id rest)

  write_record_append :
      (r : Record) (rest : Bytes)
      → write_record r ++ rest
        ≡ r.id
          ++ (write_varint (length r.tag)
              ++ (r.tag ++ (write_varint (length r.bytes) ++ (r.bytes ++ rest))))
  unfolding write_record
  write_record_append r rest = simp append_assoc refl

  check_tag-ok : (tag : Bytes) → is_utf8 tag ≡ true → check_tag blake3 tag ≡ ok tag
  unfolding check_tag
  check_tag-ok tag h = rw (h) refl

  check_record-ok :
      (r : Record) (rest : Bytes)
      → IsRecord r
      → check_record blake3 r.id r.tag r.bytes rest ≡ ok (r, rest)
  unfolding check_record
  check_record-ok r rest h = rw (sym h.0, eqb_refl r.id) refl

  read_record-write_record :
      (r : Record) (rest : Bytes)
      → IsRecord r
      → read_record blake3 (write_record r ++ rest) ≡ ok (r, rest)
  unfolding read_record
  read_record-write_record r rest h =
      rw
        (
          write_record_append r rest,
          read_id r _ h,
          read_varint-write_varint (length r.tag) _ h.2,
          read_exact-length_append r.tag _,
          check_tag-ok r.tag h.1,
          read_varint-write_varint (length r.bytes) _ h.3,
          read_exact-length_append r.bytes rest,
        )
        (check_record-ok r rest h)

  -- A round on what is not empty.
  read_records-round :
      (fuel : ℕ) (cur : Bytes)
      → 0 < length cur
      → read_records blake3 (suc fuel) cur ≡ (
          read_record blake3 cur >>= λ (r, rest).
          read_records blake3 fuel rest >>= λ rs. ok (r ∷ rs))
  unfolding read_records
  read_records-round fuel [] h = absurd (omega arith)
  read_records-round fuel (b ∷ cur) h = refl

  record_size : (r : Record) → IsRecord r → 32 ≤ length (write_record r)
  unfolding write_record
  record_size r h = rw (length-append r.id _) (omega (arith, id_size r h))

  read_records-write_records :
      (fuel : ℕ) (rs : List Record)
      → length rs ≤ fuel
      → All IsRecord rs
      → read_records blake3 fuel (write_records rs) ≡ ok rs
  unfolding write_records read_records
  read_records-write_records zero [] enough h = refl
  read_records-write_records (suc fuel) [] enough h = refl
  read_records-write_records zero (r ∷ rs) enough h = absurd (omega arith)
  read_records-write_records (suc fuel) (r ∷ rs) enough (h, hs) =
      let some_left : 0 < length (write_record r ++ write_records rs) =
        rw (length-append (write_record r) (write_records rs)) (omega (arith, record_size r h)) in
      read_records-round fuel (write_record r ++ write_records rs) some_left
      ∙ rw
          (
            read_record-write_record r (write_records rs) h,
            read_records-write_records fuel rs (omega arith) hs,
          )
          refl

  records_size : (rs : List Record) → All IsRecord rs → length rs ≤ length (write_records rs)
  unfolding write_records
  records_size [] h = omega arith
  records_size (r ∷ rs) (h, hs) =
      rw (length-append (write_record r) (write_records rs))
        (omega (arith, records_size rs hs, record_size r h))

  read_body-write_body :
      (rs : List Record)
      → All IsRecord rs
      → read_body blake3 (write_body rs) (blake3 (write_body rs)) ≡ ok rs
  unfolding read_body write_body
  read_body-write_body rs h =
      rw (eqb_refl (blake3 (magic ++ version ∷ write_records rs)), eqb_refl (magic ++ version ∷ []))
        (read_records-write_records (length (write_body rs)) rs (omega (arith, records_size rs h))
          h)

  read_split :
      (body trailer : Bytes)
      → 5 ≤ length body
      → length trailer ≡ 32
      → read blake3 (body ++ trailer) ≡ read_body blake3 body trailer
  unfolding read
  read_split body trailer large h =
      let front : length (body ++ trailer) - 32 ≡ length body =
        omega (arith, length-append body trailer) in
      let fits : ltb (length (body ++ trailer)) 37 ≡ false =
        rw (length-append body trailer, h) (ground arith) in
      rw (fits, front, take-length_append body trailer, drop-length_append body trailer) refl

  body_size : (rs : List Record) → 5 ≤ length (write_body rs)
  unfolding write_body
  body_size rs = omega arith

  -- Where the hash has 32 bytes, the records that `write` packs are read back in order, provided that
  -- each ID is that of the content, each tag is text and the sizes are below 2 ^ 64.
  pub read-write : (rs : List Record) → All IsRecord rs → read blake3 (write blake3 rs) ≡ ok rs
  unfolding write
  read-write rs h =
      read_split (write_body rs) (blake3 (write_body rs)) (body_size rs) (hash_size (write_body rs))
      ∙ read_body-write_body rs h
