-- ===== src/Storage/Pack/Runs.antt =====
-- Concrete packs, and the theorems at concrete inputs.
use tessra.Prelude.{
  ◌≡◌, ◌≢◌, refl, sym, arith, [], ◌∷◌, ◌++◌, Bytes, codes, replicate, eqb, eqb_iff, All, true,
  false, if◌then◌else◌, ◌∙◌, Bool-cases, inl, inr, list_ord, nat_ord, lookup, some, none,
}
use tessra.Core.Result.{ok, err, Error}
use tessra.Core.Id.{ObjectId}
use tessra.Core.Hash.{object_id}
use tessra.Core.Hash.Domains.{IsTag, IsInjective}
use tessra.Core.Store.{MemoryStore}
use tessra.Core.Store.Laws.{IsAddressed}
use tessra.Storage.Pack.{Record, write_varint, read_varint, write, read, import, is_utf8}
use tessra.Storage.Pack.RoundTrip.{IsRecord, read-write}
use tessra.Storage.Pack.Contents.{IsAuthentic, read-IsAuthentic}
use tessra.Storage.Pack.Importing.{import-stored}
use tessra.Storage.Pack.Termination.{read-Ends}

two_bytes : write_varint 300 ≡ 172 ∷ 2 ∷ []
unfolding write_varint
two_bytes = refl

no_end : read_varint (replicate 10 128) ≡ err Error.io
unfolding read_varint
no_end = refl

euro : is_utf8 (226 ∷ 130 ∷ 172 ∷ []) ≡ true
unfolding is_utf8
euro = refl

surrogate : is_utf8 (237 ∷ 160 ∷ 128 ∷ []) ≡ false
unfolding is_utf8
surrogate = refl

-- A hash of 32 bytes.
abbrev flat_hash : Bytes → Bytes
flat_hash x = replicate 32 7

abbrev flat_record : Record
flat_record = record { id = replicate 32 7; tag = codes "blob"; bytes = codes "hello" }

flat_record-IsRecord : IsRecord flat_hash (λ x. refl) flat_record
unfolding is_utf8 object_id
flat_record-IsRecord = (refl, refl, omega arith, omega arith)

read-write_example :
    read flat_hash (write flat_hash (flat_record ∷ flat_record ∷ []))
    ≡ ok (flat_record ∷ flat_record ∷ [])
read-write_example =
    read-write flat_hash (λ x. refl) (flat_record ∷ flat_record ∷ [])
      (flat_record-IsRecord, (flat_record-IsRecord, tt))

-- A text of 19 bytes, which makes the ID of a blob 32 bytes long below.
abbrev text : Bytes
text = codes "nineteen characters"

abbrev text_record : Record
text_record = record { id = 1 ∷ codes "tessra:blob\n" ++ text; tag = codes "blob"; bytes = text }

abbrev text_body : Bytes
text_body = codes "GVPK" ++ (1 ∷ text_record.id ++ (4 ∷ codes "blob" ++ (19 ∷ text)))

-- A hash without a collision that has 32 bytes at the body.
abbrev tagged_hash : Bytes → Bytes
tagged_hash x = if eqb x text_body then replicate 32 7 else 1 ∷ x

tagged_hash-IsInjective : IsInjective tagged_hash
tagged_hash-IsInjective a b e = elim (Bool-cases (eqb a text_body)) [
  | inl at_a ↦ elim (Bool-cases (eqb b text_body)) [
    | inl at_b ↦ (eqb_iff a text_body).0 at_a ∙ sym ((eqb_iff b text_body).0 at_b)
    | inr off_b ↦ absurd (cc (rw (at_a, off_b) at e))
  ]
  | inr off_a ↦ elim (Bool-cases (eqb b text_body)) [
    | inl at_b ↦ absurd (cc (rw (off_a, at_b) at e))
    | inr off_b ↦ cc (rw (off_a, off_b) at e)
  ]
]

text_read : read tagged_hash (text_body ++ replicate 32 7) ≡ ok (text_record ∷ [])
unfolding read eqb object_id
text_read = refl

read-IsAuthentic_example : All (IsAuthentic tagged_hash) (text_record ∷ [])
read-IsAuthentic_example =
    read-IsAuthentic tagged_hash (text_body ++ replicate 32 7) (text_record ∷ []) text_read

text-IsTag : IsTag (codes "blob")
text-IsTag = omega arith

none-some : {b : Bytes} → none ≡ some b → ⊥
none-some e = cc

nothing_there : IsAddressed tagged_hash []
unfolding lookup
nothing_there id b e = absurd (none-some e)

import-stored_example :
    (s' : MemoryStore) × (import tagged_hash [] (text_body ++ replicate 32 7) ≡ ok (1, s'))
    × All (λ r. lookup r.id s' ≡ some r.bytes) (text_record ∷ [])
    × ((id : ObjectId) (b : Bytes) → lookup id [] ≡ some b → lookup id s' ≡ some b)
import-stored_example =
    import-stored tagged_hash tagged_hash-IsInjective [] (text_body ++ replicate 32 7)
      (text_record ∷ []) text_read (text-IsTag, tt) nothing_there

read-Ends_example : read tagged_hash (text_body ++ replicate 32 7) ≢ err Error.stuck
read-Ends_example = read-Ends tagged_hash (text_body ++ replicate 32 7)
