-- ===== src/Core/Trie/Node.antt =====
-- The data of trie.rs: values, slots and nodes. The bitmap, a `u16` that is used as a set of bits
-- only, is the list of its sixteen bits, lowest first.
use tessra.Prelude.{ℕ, zero, suc, ◌/◌, ◌%◌, ◌^◌, Bool, true, false, List, [], ◌∷◌, ◌++◌}
use tessra.Prelude.{Bytes, Option, none, some, get_elem?, if◌then◌else◌, ◌==◌, from_list}
use tessra.Prelude.{list_ord, nat_ord, replicate}
use tessra.Core.Result.{Result, ok, err, Error}
use tessra.Core.Id.{ObjectId}

pub data TrieValue : Type 0 where
  id : ObjectId → TrieValue
  conflict : List ObjectId → TrieValue
  set : TrieValue

pub data Slot : Type 0 where
  leaf : Bytes → TrieValue → Slot
  node : ObjectId → Slot

pub record TrieNode : Type 0 where
  pub bitmap : List Bool
  pub slots : List Slot

-- `TrieValue::ids` and `TrieValue::union`
unfoldable pub value_ids : TrieValue → List ObjectId
value_ids (TrieValue.id i) = i ∷ []
value_ids (conflict v) = v
value_ids set = []

unfoldable pub of_ids : List ObjectId → TrieValue
of_ids (i ∷ []) = TrieValue.id i
of_ids v = conflict v

unfoldable pub value_union : TrieValue → TrieValue → TrieValue
unfolding value_ids of_ids
value_union a b = of_ids (from_list (value_ids a ++ value_ids b))

unfoldable pub empty_node : TrieNode
empty_node = record { bitmap = replicate 16 false; slots = [] }

-- `bitmap & (1 << nibble) != 0`
unfoldable pub has_bit : List Bool → ℕ → Bool
has_bit [] n = false
has_bit (b ∷ bs) zero = b
has_bit (b ∷ bs) (suc n) = has_bit bs n

-- `(bitmap & ((1 << nibble) - 1)).count_ones()`
unfoldable pub rank : List Bool → ℕ → ℕ
rank [] n = 0
rank (b ∷ bs) zero = 0
rank (b ∷ bs) (suc n) = if b then suc (rank bs n) else rank bs n

-- `bitmap |= 1 << nibble` and `bitmap &= !(1 << nibble)`
unfoldable pub write_bit : Bool → List Bool → ℕ → List Bool
write_bit v [] n = []
write_bit v (b ∷ bs) zero = v ∷ bs
write_bit v (b ∷ bs) (suc n) = b ∷ write_bit v bs n

-- `Vec::insert`, `Vec::remove` and an indexed write.
unfoldable pub insert_at : List Slot → ℕ → Slot → List Slot
insert_at xs zero s = s ∷ xs
insert_at [] (suc i) s = s ∷ []
insert_at (x ∷ xs) (suc i) s = x ∷ insert_at xs i s

unfoldable pub remove_at : List Slot → ℕ → List Slot
remove_at [] i = []
remove_at (x ∷ xs) zero = xs
remove_at (x ∷ xs) (suc i) = x ∷ remove_at xs i

unfoldable pub write_at : List Slot → ℕ → Slot → List Slot
write_at [] i s = []
write_at (x ∷ xs) zero s = s ∷ xs
write_at (x ∷ xs) (suc i) s = x ∷ write_at xs i s

unfoldable pub slot_index : TrieNode → ℕ → Option ℕ
unfolding has_bit rank
slot_index t n = if has_bit t.bitmap n then some (rank t.bitmap n) else none

unfoldable pub get_slot : TrieNode → ℕ → Option Slot
unfolding has_bit rank
get_slot t n = if has_bit t.bitmap n then get_elem? t.slots (rank t.bitmap n) else none

unfoldable pub set_slot : TrieNode → ℕ → Option Slot → TrieNode
unfolding has_bit rank write_bit insert_at remove_at write_at
set_slot t n (some s) =
    if has_bit t.bitmap n
    then record t { slots = write_at t.slots (rank t.bitmap n) s }
    else record {
      bitmap = write_bit true t.bitmap n;
      slots = insert_at t.slots (rank t.bitmap n) s;
    }
set_slot t n none =
    if has_bit t.bitmap n
    then record { bitmap = write_bit false t.bitmap n; slots = remove_at t.slots (rank t.bitmap n) }
    else t

-- `nibble_at`: one nibble of the key per level, high nibble first.
unfoldable pub nibble_at : Bytes → ℕ → Result ℕ
nibble_at key depth = elim (get_elem? key (depth / 2)) [
  | none ↦ err Error.panic
  | some b ↦ ok (if depth % 2 == 0 then b / 2 ^ 4 else b % 2 ^ 4)
]

-- A slot viewed abstractly during a merge.
pub data Sub : Type 0 where
  empty : Sub
  leaf : Bytes → TrieValue → Sub
  node : ObjectId → Sub

unfoldable pub from_slot : Option Slot → Sub
from_slot none = empty
from_slot (some (Slot.leaf k v)) = Sub.leaf k v
from_slot (some (Slot.node i)) = Sub.node i

unfoldable pub to_slot : Sub → Option Slot
to_slot empty = none
to_slot (Sub.leaf k v) = some (Slot.leaf k v)
to_slot (Sub.node i) = some (Slot.node i)
