-- ===== src/Oplog/Dag/Ancestry.antt =====
-- `ancestors` is the closure of the parents.
use tessra.Prelude.{
  ℕ, suc, ◌≤◌, ◌≡◌, subst, arith, true, List, [], ◌∷◌, contains, eqb, eqb_iff, list_ord, nat_ord,
  ◌↔◌,
}
use tessra.Core.Result.{ok}
use tessra.Core.Id.{ObjectId}
use tessra.Oplog.Walk.Reached.{Reach, walk_iff}
use tessra.Oplog.Walk.Ends.{IsClosed, left_over, walk-ends}
use tessra.Oplog.Dag.Store.{OpStore}
use tessra.Oplog.Dag.{Log, op_parents, ancestors}

module _ (db : OpStore) where
  open db use {nodes}

  -- Where an operation is among stored operations whose parents are among them, `ancestors` ends, in as
  -- many rounds as these have parents and one more, and returns the operation and exactly what its
  -- parents lead to.
  pub ancestors_lem :
      (fuel : ℕ) (log : Log db) (i : ObjectId) (stored : List ObjectId)
      → IsClosed (op_parents db log.store) stored
      → contains stored i ≡ true
      → suc (left_over (op_parents db log.store) [] stored) ≤ fuel
      → (out : List ObjectId) × (ancestors db fuel log i ≡ ok out)
        × ((j : ObjectId) → (contains out j ≡ true) ↔ Reach (op_parents db log.store) (i ∷ []) j)
  unfolding ancestors
  ancestors_lem fuel log i stored closed present enough =
      let (out, done) =
        walk-ends (op_parents db log.store) stored fuel (i ∷ []) closed (only i stored present)
          (omega arith) in
      (out, done, walk_iff (op_parents db log.store) fuel (i ∷ []) out done)
    where
      only :
          (i : ObjectId) (stored : List ObjectId)
          → contains stored i ≡ true
          → (j : ObjectId) → contains (i ∷ []) j ≡ true
          → contains stored j ≡ true
      only i stored present j c =
          subst (λ x. contains stored x ≡ true) ((eqb_iff i j).0 (single i j c)) present
        where
          single : (i j : ObjectId) → contains (i ∷ []) j ≡ true → eqb i j ≡ true
          single i j c = unfold contains in ground arith
