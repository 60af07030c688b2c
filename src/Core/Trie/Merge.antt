-- ===== src/Core/Trie/Merge.antt =====
-- Three-way merge of tries: `merge3`, `merge_sub`, `expand`.
use tessra.Prelude.{ℕ, zero, suc, ◌+◌, ◌-◌, Bool, true, false, List, [], ◌∷◌, ◌++◌}
use tessra.Prelude.{Bytes, Option, none, some, if◌then◌else◌, ◌&&◌, eqb}
use tessra.Prelude.{list_ord, nat_ord}
use tessra.Core.Result.{Error}
use tessra.Core.State.{M, ret, fail, ◌>>=◌, lift}
use tessra.Core.Id.{ObjectId}
use tessra.Core.Trie.Node.{TrieValue, Slot, TrieNode, empty_node, get_slot, set_slot, nibble_at}
use tessra.Core.Trie.Node.{Sub, empty, from_slot, to_slot, value_union}
use tessra.Core.Trie.Ops.Store.{NodeStore}
use tessra.Core.Trie.Ops.{load_node, normalize, as_root}
use mathlib.Core.Bool.{decide}
use native.Mathlib.Decide.{ℕ_discrete}

-- How removed-versus-changed is resolved.
pub data MergePolicy : Type 0 where
  pointers set : MergePolicy

pub TrieValue-discrete : Discrete TrieValue
TrieValue-discrete = hlevel ℕ_discrete

unfoldable pub Sub-discrete : Discrete Sub
Sub-discrete = hlevel ℕ_discrete

unfoldable pub sub_eq : Sub → Sub → Bool
sub_eq a b = decide (Sub-discrete a b)

-- `is_flat` and `leaf_parts`
unfoldable pub is_flat : Sub → Bool
is_flat (Sub.node _) = false
is_flat _ = true

unfoldable pub leaf_keys : Sub → List Bytes
leaf_keys (Sub.leaf k v) = k ∷ []
leaf_keys _ = []

unfoldable pub leaf_value : Sub → Option TrieValue
leaf_value (Sub.leaf k v) = some v
leaf_value _ = none

-- `keys.windows(2).all(|w| w[0] == w[1])`
unfoldable pub all_equal : List Bytes → Bool
all_equal [] = true
all_equal (k ∷ []) = true
all_equal (k ∷ j ∷ ks) = eqb k j && all_equal (j ∷ ks)

unfoldable pub kept : MergePolicy → TrieValue → Option TrieValue
kept pointers y = none
kept set y = some y

-- The value rule, where the two sides differ from the base and from one another.
unfoldable pub merge_values :
    MergePolicy → Option TrieValue → Option TrieValue → Option TrieValue → Option TrieValue
merge_values policy base (some x) (some y) = some (value_union x y)
merge_values policy (some b) none (some y) = kept policy y
merge_values policy (some b) (some y) none = kept policy y
merge_values policy none none (some y) = some y
merge_values policy none (some y) none = some y
merge_values policy base none none = none

unfoldable pub of_value : Bytes → Option TrieValue → Sub
of_value key none = empty
of_value key (some v) = Sub.leaf key v

-- The value-level rule on leaves that share one key. The list of keys is not empty when it applies.
unfoldable pub merge_leaves : MergePolicy → Sub → Sub → Sub → List Bytes → Sub
merge_leaves policy base a b [] = empty
merge_leaves policy base a b (key ∷ ks) =
    of_value key (merge_values policy (leaf_value base) (leaf_value a) (leaf_value b))

unfoldable pub share_key : Sub → Sub → Sub → Bool
share_key base a b =
    is_flat base
    && is_flat a
    && is_flat b
    && all_equal (leaf_keys base ++ leaf_keys a ++ leaf_keys b)

module _ (store : NodeStore) where
  open store use {State}

  unfoldable pub expand : Sub → ℕ → M State TrieNode
  expand empty depth = ret empty_node
  expand (Sub.leaf k v) depth = do
    n ← lift (nibble_at k depth)
    ret (set_slot empty_node n (some (Slot.leaf k v)))
  expand (Sub.node i) depth = load_node store i

  -- `for nib in 0u8..16`, with `rest` nibbles to go; `deeper` merges three slots.
  unfoldable pub merge_slots :
      (Sub → Sub → Sub → M State Sub)
      → ℕ
      → TrieNode
      → TrieNode
      → TrieNode
      → TrieNode
      → M State TrieNode
  merge_slots deeper zero nb na nb2 out = ret out
  merge_slots deeper (suc rest) nb na nb2 out =
      let nib = 15 - rest in
      do
        merged ←
            deeper (from_slot (get_slot nb nib)) (from_slot (get_slot na nib))
              (from_slot (get_slot nb2 nib))
        merge_slots deeper rest nb na nb2 (set_slot out nib (to_slot merged))

  -- `depth` counts the nibbles above; the fuel bounds those below.
  unfoldable pub merge_sub : ℕ → MergePolicy → ℕ → Sub → Sub → Sub → M State Sub
  merge_sub zero policy depth base a b = fail Error.stuck
  merge_sub (suc f) policy depth base a b =
      let deeper = merge_sub f policy (depth + 1) in
      let structural = (do
        nb ← expand base depth
        na ← expand a depth
        nb2 ← expand b depth
        out ← merge_slots deeper 16 nb na nb2 empty_node
        normalize store out) in
      if sub_eq a base
      then ret b
      else if sub_eq b base
      then ret a
      else if sub_eq a b
      then ret a
      else if share_key base a b
      then ret (merge_leaves policy base a b (leaf_keys base ++ leaf_keys a ++ leaf_keys b))
      else structural

  -- `height` bounds the depth of the three tries.
  unfoldable pub merge3 : ℕ → ObjectId → ObjectId → ObjectId → MergePolicy → M State ObjectId
  merge3 height base a b policy = do
    merged ← merge_sub height policy 0 (Sub.node base) (Sub.node a) (Sub.node b)
    as_root store merged
