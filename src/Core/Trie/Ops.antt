-- ===== src/Core/Trie/Ops.antt =====
-- The operations of trie.rs over a store of nodes.
pub mod Store
use tessra.Prelude.{ℕ, zero, suc, ◌+◌, ◌*◌, Bool, true, false, List, [], ◌∷◌, ◌++◌}
use tessra.Prelude.{Bytes, Option, none, some, if◌then◌else◌, ◌==◌, leb, eqb, length}
use tessra.Prelude.{list_ord, nat_ord}
use tessra.Core.Result.{Result, ok, err, Error}
use tessra.Core.State.{M, ret, fail, ◌>>=◌, lift}
use tessra.Core.Id.{ObjectId}
use tessra.Core.Trie.Node.{TrieValue, Slot, TrieNode, empty_node, get_slot, set_slot, nibble_at}
use tessra.Core.Trie.Node.{Sub, empty, from_slot, to_slot}
use tessra.Core.Trie.Ops.Store.{NodeStore}

module _ (store : NodeStore) where
  open store use {State, load, save}

  -- `Trie::load` and `Trie::save`
  unfoldable pub load_node : ObjectId → M State TrieNode
  load_node i = λ s. elim (load s i) [ ok t ↦ ok (t, s) | err e ↦ err e ]

  unfoldable pub save_node : TrieNode → M State ObjectId
  save_node t = λ s. ok (save s t)

  unfoldable pub empty_root : M State ObjectId
  empty_root = save_node empty_node

  -- The body of the loop of `get` at one slot; `deeper` goes on at the child.
  unfoldable pub get_at :
      Bytes → Option Slot → (TrieNode → M State (Option TrieValue)) → M State (Option TrieValue)
  get_at key none deeper = ret none
  get_at key (some (Slot.leaf k v)) deeper = ret (if eqb k key then some v else none)
  get_at key (some (Slot.node i)) deeper = do child ← load_node i; deeper child

  unfoldable pub get_loop : ℕ → TrieNode → ℕ → Bytes → M State (Option TrieValue)
  get_loop zero t depth key = fail Error.stuck
  get_loop (suc f) t depth key =
      let deeper = λ (child : TrieNode). get_loop f child (depth + 1) key in
      let onward = (do n ← lift (nibble_at key depth); get_at key (get_slot t n) deeper) in
      if leb (length key * 2) depth then ret none else onward

  -- The loop makes at most one round for each nibble of the key, and a last one that ends it.
  unfoldable pub get : ObjectId → Bytes → M State (Option TrieValue)
  get root key = do t ← load_node root; get_loop (length key * 2 + 1) t 0 key

  -- The last `if` of `pair_node`; `deeper` makes the child.
  unfoldable pub pair_at :
      ℕ → Bytes → TrieValue → ℕ → Bytes → TrieValue → M State TrieNode → M State TrieNode
  pair_at n1 k1 v1 n2 k2 v2 deeper =
      let below = (do
        child ← deeper
        i ← save_node child
        ret (set_slot empty_node n1 (some (Slot.node i)))) in
      let apart =
        set_slot (set_slot empty_node n1 (some (Slot.leaf k1 v1))) n2 (some (Slot.leaf k2 v2)) in
      if n1 == n2 then below else ret apart

  unfoldable pub pair_node : ℕ → ℕ → Bytes → TrieValue → Bytes → TrieValue → M State TrieNode
  pair_node zero depth k1 v1 k2 v2 = fail Error.stuck
  pair_node (suc f) depth k1 v1 k2 v2 =
      let deeper = pair_node f (depth + 1) k1 v1 k2 v2 in
      let onward = (do
        n1 ← lift (nibble_at k1 depth)
        n2 ← lift (nibble_at k2 depth)
        pair_at n1 k1 v1 n2 k2 v2 deeper) in
      if leb (length k1 * 2) depth then fail Error.invariant else onward

  -- The new slot of `insert_in`; `deeper` inserts into a child.
  unfoldable pub new_slot :
      ℕ → Bytes → TrieValue → Option Slot → (TrieNode → M State TrieNode) → M State Slot
  new_slot depth key value none deeper = ret (Slot.leaf key value)
  new_slot depth key value (some (Slot.leaf k v)) deeper =
      let split = (do
        child ← pair_node (length k * 2 + 1) (depth + 1) k v key value
        i ← save_node child
        ret (Slot.node i)) in
      if eqb k key
      then ret (Slot.leaf k value)
      else if length k == length key
      then split
      else fail Error.invariant
  new_slot depth key value (some (Slot.node i)) deeper = do
    child ← load_node i
    child' ← deeper child
    j ← save_node child'
    ret (Slot.node j)

  unfoldable pub insert_in : ℕ → TrieNode → ℕ → Bytes → TrieValue → M State TrieNode
  insert_in zero t depth key value = fail Error.stuck
  insert_in (suc f) t depth key value =
      let deeper = λ (child : TrieNode). insert_in f child (depth + 1) key value in
      do
        n ← lift (nibble_at key depth)
        slot ← new_slot depth key value (get_slot t n) deeper
        ret (set_slot t n (some slot))

  -- A round past the last nibble of the key panics, so this is fuel enough.
  unfoldable pub insert : ObjectId → Bytes → TrieValue → M State ObjectId
  insert root key value = do
    t ← load_node root
    t' ← insert_in (length key * 2 + 1) t 0 key value
    save_node t'

  -- `normalize`, on the slots of the node: its canonical form.
  unfoldable pub normalize_slots : TrieNode → List Slot → M State Sub
  normalize_slots t [] = ret empty
  normalize_slots t (Slot.leaf k v ∷ []) = ret (Sub.leaf k v)
  normalize_slots t _ = do i ← save_node t; ret (Sub.node i)

  unfoldable pub normalize : TrieNode → M State Sub
  normalize t = normalize_slots t t.slots

  unfoldable pub remove_at_slot :
      TrieNode → ℕ → Bytes → Option Slot → (TrieNode → M State Sub) → M State Sub
  remove_at_slot t n key none deeper = do i ← save_node t; ret (Sub.node i)
  remove_at_slot t n key (some (Slot.leaf k v)) deeper =
      let kept = (do i ← save_node t; ret (Sub.node i)) in
      if eqb k key then normalize (set_slot t n none) else kept
  remove_at_slot t n key (some (Slot.node i)) deeper = do
    child ← load_node i
    sub ← deeper child
    normalize (set_slot t n (to_slot sub))

  unfoldable pub remove_in : ℕ → TrieNode → ℕ → Bytes → M State Sub
  remove_in zero t depth key = fail Error.stuck
  remove_in (suc f) t depth key =
      let deeper = λ (child : TrieNode). remove_in f child (depth + 1) key in
      do n ← lift (nibble_at key depth); remove_at_slot t n key (get_slot t n) deeper

  -- The root is a node, also where it holds one leaf or none.
  unfoldable pub as_root : Sub → M State ObjectId
  as_root empty = save_node empty_node
  as_root (Sub.leaf k v) = do
    n ← lift (nibble_at k 0)
    save_node (set_slot empty_node n (some (Slot.leaf k v)))
  as_root (Sub.node i) = ret i

  unfoldable pub remove : ObjectId → Bytes → M State ObjectId
  remove root key = do t ← load_node root; sub ← remove_in (length key * 2 + 1) t 0 key; as_root sub

  -- `walk`: the entries of a list of slots in order; `deeper` walks a child.
  unfoldable pub walk_slots :
      List Slot
      → (ObjectId → M State (List (Bytes × TrieValue)))
      → M State (List (Bytes × TrieValue))
  walk_slots [] deeper = ret []
  walk_slots (Slot.leaf k v ∷ slots) deeper = do out ← walk_slots slots deeper; ret ((k, v) ∷ out)
  walk_slots (Slot.node i ∷ slots) deeper = do
    inner ← deeper i
    out ← walk_slots slots deeper
    ret (inner ++ out)

  unfoldable pub walk : ℕ → ObjectId → M State (List (Bytes × TrieValue))
  walk zero i = fail Error.stuck
  walk (suc f) i = let deeper = walk f in do t ← load_node i; walk_slots t.slots deeper

  -- `entries`; `height` bounds the depth of the trie.
  unfoldable pub entries : ℕ → ObjectId → M State (List (Bytes × TrieValue))
  entries height root = walk height root

  unfoldable pub len : ℕ → ObjectId → M State ℕ
  len height root = do out ← entries height root; ret (length out)
