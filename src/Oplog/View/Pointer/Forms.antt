-- ===== src/Oplog/View/Pointer/Forms.antt =====
-- A pointer survives its forms, and `union` is the union of the sets of IDs.
use tessra.Prelude.{
  ◌≡◌, refl, ap, ap₂, sym, ◌∙◌, arith, Bool, true, false, ◌||◌, List, [], ◌∷◌, ◌++◌, Bytes, codes,
  All, All-append, from_list-All, length,
}
use tessra.Prelude.{
  Option, none, some, if◌then◌else◌, eqb, eqb_refl, eqb_iff, from_list, list_ord, nat_ord,
}
use tessra.Prelude.{
  contains, contains-from_list, contains-append, from_list-ext, IsSorted, from_list-IsSorted,
}
use tessra.Core.Result.{Result, ok, err}
use tessra.Core.Id.{ObjectId, object_from_slice}
use tessra.Core.Id.Slices.{object_from_slice-ok}
use tessra.Core.Value.{Value, Values, Entries}
use tessra.Oplog.View.Pointer.{
  id_of, to_option, conflict_of, Pointer, conflict, byte_values, push_id, to_value, ids_of_values,
  from_value, ids, pointer_of_ids, union,
}

-- A pointer whose IDs have 32 bytes.
abbrev pub IsPointer : Pointer → Type 0
IsPointer (Pointer.id i) = length i ≡ 32
IsPointer (conflict v) = All (λ i. length i ≡ 32) v

ids_of_values-byte_values :
    (v : List ObjectId) → All (λ i. length i ≡ 32) v → ids_of_values (byte_values v) ≡ some v
unfolding ids_of_values byte_values
ids_of_values-byte_values [] h = refl
ids_of_values-byte_values (i ∷ v) (h, hs) =
    ap₂ push_id (object_from_slice-ok i h) (ids_of_values-byte_values v hs) ∙ unfold push_id in refl

-- A pointer is read back from the CBOR value that is written for it.
pub from_value-to_value : (p : Pointer) → IsPointer p → from_value (to_value p) ≡ some p
unfolding from_value to_value
from_value-to_value (Pointer.id i) h = rw (object_from_slice-ok i h)
from_value-to_value (conflict v) h = rw (eqb_refl (codes "conflict"), ids_of_values-byte_values v h)

push_id-some :
    (r : Result ObjectId) (o : Option (List ObjectId)) (v : List ObjectId)
    → push_id r o ≡ some v
    → (i : ObjectId) × (is : List ObjectId) × (r ≡ ok i) × (o ≡ some is) × (v ≡ i ∷ is)
unfolding push_id
push_id-some (ok i) (some is) v h = (i, is, refl, refl, cc)
push_id-some (ok i) none v h = cc
push_id-some (err e) o v h = cc

object_from_slice_sound : (b i : Bytes) → object_from_slice b ≡ ok i → i ≡ b
unfolding object_from_slice
object_from_slice_sound b i h = ground arith

ids_of_values_sound :
    (vs : Values) (v : List ObjectId) → ids_of_values vs ≡ some v → byte_values v ≡ vs
unfolding ids_of_values byte_values
ids_of_values_sound Values.nothing [] h = refl
ids_of_values_sound Values.nothing (i ∷ is) h = cc
ids_of_values_sound (Values.item (Value.bytes b) vs) v h =
    let (i, is, ri, ro, e) = push_id-some (object_from_slice b) (ids_of_values vs) v h in
    rw (e, object_from_slice_sound b i ri, ids_of_values_sound vs is ro)
ids_of_values_sound (Values.item _ vs) v h = cc

id_of-some :
    (r : Result ObjectId) (p : Pointer)
    → id_of (to_option r) ≡ some p
    → (i : ObjectId) × (r ≡ ok i) × (p ≡ Pointer.id i)
id_of-some (ok i) p h = (i, refl, cc)
id_of-some (err e) p h = cc

conflict_of-some :
    (b : Bool) (o : Option (List ObjectId)) (p : Pointer)
    → (if b then conflict_of o else none) ≡ some p
    → (v : List ObjectId) × (b ≡ true) × (o ≡ some v) × (p ≡ conflict v)
conflict_of-some true (some v) p h = (v, refl, refl, cc)
conflict_of-some true none p h = cc
conflict_of-some false o p h = cc

-- Only the CBOR value that is written for a pointer is read as that pointer.
to_value-from_value : (v : Value) (p : Pointer) → from_value v ≡ some p → to_value p ≡ v
unfolding from_value to_value
to_value-from_value (Value.bytes b) p h =
    let (i, r, e) = id_of-some (object_from_slice b) p h in rw (e, object_from_slice_sound b i r)
to_value-from_value (Value.map (Entries.entry (Value.text k) (Value.array items) Entries.no_entry))
      p h =
    let (v, b, o, e) = conflict_of-some (eqb k (codes "conflict")) (ids_of_values items) p h in
    rw (e, ids_of_values_sound items v o, (eqb_iff k (codes "conflict")).0 b)
to_value-from_value v p h = cc

ids-pointer_of_ids : (v : List ObjectId) → ids (pointer_of_ids v) ≡ v
unfolding ids pointer_of_ids
ids-pointer_of_ids [] = refl
ids-pointer_of_ids (i ∷ []) = refl
ids-pointer_of_ids (i ∷ j ∷ v) = refl

ids-union : (a b : Pointer) → ids (union a b) ≡ from_list (ids a ++ ids b)
unfolding union
ids-union a b = ids-pointer_of_ids (from_list (ids a ++ ids b))

-- The union of two pointers holds the IDs of both, in ascending order, and the sides do not matter.
pub union-ids :
    (a b : Pointer)
    → ((i : ObjectId) → contains (ids (union a b)) i ≡ (contains (ids a) i || contains (ids b) i))
      × IsSorted (ids (union a b))
      × (union a b ≡ union b a)
union-ids a b = (
  λ i.
      rw (ids-union a b, contains-from_list (ids a ++ ids b) i) (contains-append (ids a) (ids b) i),
  rw (ids-union a b) (from_list-IsSorted (ids a ++ ids b)),
  unfold union in
      ap pointer_of_ids (
        from_list-ext (ids a ++ ids b) (ids b ++ ids a) λ i.
          contains-append (ids a) (ids b) i
          ∙ ground arith
          ∙ sym (contains-append (ids b) (ids a) i)),
)

object_from_slice-length : (b i : Bytes) → object_from_slice b ≡ ok i → length i ≡ 32
unfolding object_from_slice
object_from_slice-length b i h = ground arith

none-some : {A : Type 0} {a : A} → none ≡ some a → ⊥
none-some e = cc

nil-cons : {i : ObjectId} {is : List ObjectId} → some [] ≡ some (i ∷ is) → ⊥
nil-cons e = cc

ids_of_values-lengths :
    (vs : Values) (v : List ObjectId) → ids_of_values vs ≡ some v → All (λ i. length i ≡ 32) v
unfolding ids_of_values
ids_of_values-lengths Values.nothing [] h = tt
ids_of_values-lengths Values.nothing (i ∷ is) h = absurd (nil-cons h)
ids_of_values-lengths (Values.item (Value.bytes b) vs) v h =
    let (i, is, ri, ro, e) = push_id-some (object_from_slice b) (ids_of_values vs) v h in
    rw e (object_from_slice-length b i ri, ids_of_values-lengths vs is ro)
ids_of_values-lengths (Values.item _ vs) v h = absurd (none-some h)

-- The IDs of a pointer that was read have 32 bytes.
pub from_value-IsPointer : (v : Value) (p : Pointer) → from_value v ≡ some p → IsPointer p
unfolding from_value
from_value-IsPointer (Value.bytes b) p h =
    let (i, r, e) = id_of-some (object_from_slice b) p h in rw e (object_from_slice-length b i r)
from_value-IsPointer (Value.map (Entries.entry (Value.text k) (Value.array items) Entries.no_entry))
      p h =
    let (v, b, o, e) = conflict_of-some (eqb k (codes "conflict")) (ids_of_values items) p h in
    rw e (ids_of_values-lengths items v o)
from_value-IsPointer v p h = absurd (none-some h)

IsPointer-ids : (p : Pointer) → IsPointer p → All (λ i. length i ≡ 32) (ids p)
unfolding ids
IsPointer-ids (Pointer.id i) h = (h, tt)
IsPointer-ids (conflict v) h = h

pointer_of_ids-IsPointer :
    (v : List ObjectId) → All (λ i. length i ≡ 32) v → IsPointer (pointer_of_ids v)
unfolding pointer_of_ids
pointer_of_ids-IsPointer [] h = tt
pointer_of_ids-IsPointer (i ∷ []) (h, hs) = h
pointer_of_ids-IsPointer (i ∷ j ∷ v) h = h

pub union-IsPointer : (a b : Pointer) → IsPointer a → IsPointer b → IsPointer (union a b)
unfolding union
union-IsPointer a b ha hb = pointer_of_ids-IsPointer (from_list (ids a ++ ids b)) (
    from_list-All (λ i. length i ≡ 32) (ids a ++ ids b)
      (All-append (λ i. length i ≡ 32) (ids a) (ids b) (IsPointer-ids a ha) (IsPointer-ids b hb)))
