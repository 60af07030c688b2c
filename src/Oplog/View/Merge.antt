-- ===== src/Oplog/View/Merge.antt =====
-- `ViewState`: the empty view, lookups, the three-way merge and the union of sets.
use tessra.Prelude.{
  ℕ, Bool, List, [], ◌∷◌, ◌++◌, Bytes, Option, none, some, from_list, list_ord, nat_ord, is_some,
}
use tessra.Core.State.{M, ret, ◌>>=◌}
use tessra.Core.Id.{EntityId, ObjectId}
use tessra.Core.Trie.Node.{TrieValue}
use tessra.Core.Trie.Ops.Store.{NodeStore}
use tessra.Core.Trie.Ops.{empty_root, get, insert, entries}
use tessra.Core.Trie.Merge.{MergePolicy, merge3}
use tessra.Oplog.View.Pointer.{Pointer, from_trie}
use tessra.Oplog.View.Data.{View}
use tessra.Oplog.View.Parts.{merge_lines, merge_set_vec, merge_deployed, merge_paused}

-- `.and_then(|v| Pointer::from_trie(&v))`
unfoldable pub pointer_at : Option TrieValue → Option Pointer
unfolding from_trie
pointer_at none = none
pointer_at (some v) = from_trie v

unfoldable pub first_ids : List (Bytes × TrieValue) → List Bytes
first_ids [] = []
first_ids ((k, v) ∷ es) = k ∷ first_ids es

module _ (store : NodeStore) where
  open store use {State}

  unfoldable pub empty : M State View
  empty = do
    e ← empty_root store
    ret (record {
      entities = e;
      proposed = e;
      claims = e;
      caps = e;
      revoked = e;
      tombstoned = e;
      lines = [];
      roots = [];
      owners = [];
      deployed = [];
      paused = none;
    })

  unfoldable pub entity : View → EntityId → M State (Option Pointer)
  unfolding pointer_at
  entity v id = do r ← get store v.entities id; ret (pointer_at r)

  unfoldable pub claim : View → EntityId → M State (Option Pointer)
  unfolding pointer_at
  claim v id = do r ← get store v.claims id; ret (pointer_at r)

  unfoldable pub in_set : ObjectId → ObjectId → M State Bool
  in_set root id = do r ← get store root id; ret (is_some r)

  unfoldable pub principal_revoked : View → EntityId → M State Bool
  principal_revoked v id = do r ← get store v.revoked id; ret (is_some r)

  -- The two loops of `union_sets`; `height` bounds the depth of the tries.
  unfoldable pub all_keys : ℕ → List ObjectId → M State (List Bytes)
  all_keys height [] = ret []
  all_keys height (r ∷ rs) = do
    es ← entries store height r
    ks ← all_keys height rs
    ret (first_ids es ++ ks)

  unfoldable pub insert_all : ObjectId → List Bytes → M State ObjectId
  insert_all out [] = ret out
  insert_all out (k ∷ ks) = do out' ← insert store out k TrieValue.set; insert_all out' ks

  unfoldable pub union_sets : ℕ → List ObjectId → M State ObjectId
  unfolding all_keys insert_all
  union_sets height roots = do
    ks ← all_keys height roots
    out ← empty_root store
    insert_all out (from_list ks)

  unfoldable pub merge : ℕ → View → View → View → M State View
  unfolding union_sets
  merge height base a b = do
    entities ← merge3 store height base.entities a.entities b.entities MergePolicy.pointers
    claims ← merge3 store height base.claims a.claims b.claims MergePolicy.pointers
    proposed ← merge3 store height base.proposed a.proposed b.proposed MergePolicy.set
    caps ← merge3 store height base.caps a.caps b.caps MergePolicy.set
    revoked ← union_sets height (base.revoked ∷ a.revoked ∷ b.revoked ∷ [])
    tombstoned ← union_sets height (base.tombstoned ∷ a.tombstoned ∷ b.tombstoned ∷ [])
    ret (record {
      entities = entities;
      proposed = proposed;
      claims = claims;
      caps = caps;
      revoked = revoked;
      tombstoned = tombstoned;
      lines = merge_lines base.lines a.lines b.lines;
      roots = merge_set_vec base.roots a.roots b.roots;
      owners = merge_set_vec base.owners a.owners b.owners;
      deployed = merge_deployed base.deployed a.deployed b.deployed;
      paused = merge_paused a.paused b.paused;
    })
