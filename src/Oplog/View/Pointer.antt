-- ===== src/Oplog/View/Pointer.antt =====
-- `Pointer`: what a view holds of an entity, and its forms as a CBOR value and as a trie's value.
pub mod Forms
use tessra.Prelude.{
  Bool, true, false, List, [], ◌∷◌, ◌++◌, Bytes, codes, Option, none, some, if◌then◌else◌,
}
use tessra.Prelude.{eqb, from_list, list_ord, nat_ord}
use tessra.Core.Result.{Result, ok, err, Error}
use tessra.Core.Id.{ObjectId, object_from_slice}
use tessra.Core.Trie.Node.{TrieValue}
use tessra.Core.Value.{Value, Values, Entries}

pub data Pointer : Type 0 where
  id : ObjectId → Pointer
  conflict : List ObjectId → Pointer

-- `Value::Array(v.iter().map(|i| Value::Bytes(...)).collect())`
unfoldable pub byte_values : List ObjectId → Values
byte_values [] = Values.nothing
byte_values (i ∷ is) = Values.item (Value.bytes i) (byte_values is)

unfoldable pub to_value : Pointer → Value
to_value (Pointer.id i) = Value.bytes i
to_value (conflict v) =
    Value.map
      (Entries.entry (Value.text (codes "conflict")) (Value.array (byte_values v)) Entries.no_entry)

-- `.ok()`
abbrev pub to_option {ℓ} : {A : Type ℓ} → Result A → Option A
to_option (ok a) = some a
to_option (err e) = none

unfoldable pub push_id : Result ObjectId → Option (List ObjectId) → Option (List ObjectId)
push_id (ok i) (some is) = some (i ∷ is)
push_id _ _ = none

-- The loop over the items of a conflict.
unfoldable pub ids_of_values : Values → Option (List ObjectId)
ids_of_values Values.nothing = some []
ids_of_values (Values.item (Value.bytes b) vs) = push_id (object_from_slice b) (ids_of_values vs)
ids_of_values (Values.item _ vs) = none

abbrev pub conflict_of : Option (List ObjectId) → Option Pointer
conflict_of none = none
conflict_of (some is) = some (conflict is)

abbrev pub id_of : Option ObjectId → Option Pointer
id_of none = none
id_of (some i) = some (Pointer.id i)

unfoldable pub from_value : Value → Option Pointer
from_value (Value.bytes b) = id_of (to_option (object_from_slice b))
from_value (Value.map (Entries.entry (Value.text k) (Value.array items) Entries.no_entry)) =
    let ids = conflict_of (ids_of_values items) in if eqb k (codes "conflict") then ids else none
from_value _ = none

unfoldable pub from_trie : TrieValue → Option Pointer
from_trie (TrieValue.id i) = some (Pointer.id i)
from_trie (TrieValue.conflict c) = some (conflict c)
from_trie TrieValue.set = none

unfoldable pub to_trie : Pointer → TrieValue
to_trie (Pointer.id i) = TrieValue.id i
to_trie (conflict c) = TrieValue.conflict c

unfoldable pub ids : Pointer → List ObjectId
ids (Pointer.id i) = i ∷ []
ids (conflict c) = c

unfoldable pub single : Pointer → Result ObjectId
single (Pointer.id i) = ok i
single (conflict c) = err Error.other

unfoldable pub pointer_of_ids : List ObjectId → Pointer
pointer_of_ids (i ∷ []) = Pointer.id i
pointer_of_ids v = conflict v

unfoldable pub union : Pointer → Pointer → Pointer
unfolding ids pointer_of_ids
union a b = pointer_of_ids (from_list (ids a ++ ids b))
