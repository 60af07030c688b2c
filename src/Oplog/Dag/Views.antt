-- ===== src/Oplog/Dag/Views.antt =====
-- The merged view of several operations: `merged_view` and `current_view`.
use tessra.Prelude.{ℕ, List, [], ◌∷◌, ◌++◌, Option, none, some, from_list, list_ord, nat_ord}
use tessra.Core.State.{M, ret, lift, ◌>>=◌}
use tessra.Core.Id.{ObjectId}
use tessra.Oplog.View.Data.{View}
use tessra.Oplog.View.Merge.{empty, merge}
use tessra.Oplog.Dag.Store.{OpStore}
use tessra.Oplog.Dag.{Log, view_of, lca}

module _ (db : OpStore) where
  open db use {nodes}

  unfoldable pub base_view : ℕ → Log db → Option ObjectId → M nodes.State View
  base_view fuel log none = empty nodes
  base_view fuel log (some b) = lift (view_of db log b)

  -- The loop of `merged_view` over the operations after the first; `height` bounds the tries.
  unfoldable pub fold_views :
      ℕ → ℕ → Log db → List ObjectId → View → List ObjectId → M nodes.State View
  unfolding base_view
  fold_views fuel height log folded acc [] = ret acc
  fold_views fuel height log folded acc (next ∷ rest) = do
    b ← lift (lca db fuel log (folded ++ next ∷ []))
    base ← base_view fuel log b
    nv ← lift (view_of db log next)
    acc' ← merge nodes height base acc nv
    fold_views fuel height log (folded ++ next ∷ []) acc' rest

  unfoldable pub merge_in_order : ℕ → ℕ → Log db → List ObjectId → M nodes.State View
  unfolding fold_views
  merge_in_order fuel height log [] = empty nodes
  merge_in_order fuel height log (i ∷ rest) = do
    v ← lift (view_of db log i)
    fold_views fuel height log (i ∷ []) v rest

  unfoldable pub merged_view : ℕ → ℕ → Log db → List ObjectId → M nodes.State View
  unfolding merge_in_order
  merged_view fuel height log ops = merge_in_order fuel height log (from_list ops)

  unfoldable pub current_view : ℕ → ℕ → Log db → M nodes.State View
  unfolding merged_view
  current_view fuel height log = merged_view fuel height log log.heads
