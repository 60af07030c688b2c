-- ===== src/Oplog/Dag.antt =====
-- crates/tessra-oplog/src/dag.rs: the operations, their heads, and the acceptance of a new one.
pub mod Store
pub mod Views
pub mod Ancestry
pub mod Acceptance
pub mod Runs
use tessra.Prelude.{
  ℕ, zero, suc, Bool, true, false, not, List, [], ◌∷◌, ◌++◌, Bytes, codes, length, ◌==◌, Option,
  none, some, if◌then◌else◌, eqb, contains, insert, remove, filter, from_list, lookup, put, head?,
  ◌||◌, list_ord, nat_ord, pair_ord,
}
use tessra.Core.Result.{Result, ok, err, ◌>>=◌, Error}
use tessra.Core.Id.{EntityId, ObjectId}
use tessra.Core.Value.{Value}
use tessra.Oplog.View.Data.{View, Op}
use tessra.Oplog.Walk.{walk}
use tessra.Oplog.Dag.Store.{OpStore}

-- `OpLog`: the sets and maps behind it are keyed by the ID of an operation.
pub record OpLog (S : Type 0) : Type 0 where
  pub store : S
  pub heads : List ObjectId
  pub verified : List ObjectId
  pub views : List (ObjectId × ObjectId)
  pub idem : List ((EntityId × Bytes) × ObjectId)

-- `idem_key`
unfoldable pub idem_of : EntityId → Option Value → Option (EntityId × Bytes)
idem_of author (some (Value.bytes b)) = if length b == 16 then some (author, b) else none
idem_of author _ = none

unfoldable pub idem_key : Op → Option (EntityId × Bytes)
idem_key op = idem_of op.author (lookup (codes "idem") op.args)

-- The loop over the parents in `accept`.
unfoldable pub check_parents : List ObjectId → List ObjectId → Result (Unit {0})
check_parents verified [] = ok tt
check_parents verified (p ∷ ps) =
    if contains verified p then check_parents verified ps else err (Error.unknown_parent p)

unfoldable pub remove_all : List ObjectId → List ObjectId → List ObjectId
remove_all [] heads = heads
remove_all (p ∷ ps) heads = remove_all ps (remove p heads)

unfoldable pub put_idem :
    Option (EntityId × Bytes)
    → ObjectId
    → List ((EntityId × Bytes) × ObjectId)
    → List ((EntityId × Bytes) × ObjectId)
put_idem none i idem = idem
put_idem (some k) i idem = put k i idem

module _ {S : Type 0} where
  unfoldable pub new : S → OpLog S
  new store = record { store = store; heads = []; verified = []; views = []; idem = [] }

  unfoldable pub is_verified : OpLog S → ObjectId → Bool
  is_verified log i = contains log.verified i

  -- The earlier operation of an idempotency key.
  unfoldable pub known_as : OpLog S → Option (EntityId × Bytes) → Option ObjectId
  known_as log none = none
  known_as log (some k) = lookup k log.idem

  -- The early return of `accept`.
  unfoldable pub known_or :
      Option ObjectId → OpLog S → Result (ObjectId × OpLog S) → Result (ObjectId × OpLog S)
  known_or (some i) log fresh = ok (i, log)
  known_or none log fresh = fresh

module _ (db : OpStore) where
  open db use {nodes, load_op, load_view, put_op, put_view}

  abbrev pub Log : Type 0
  Log = OpLog nodes.State

  -- `accept`, after the operation has passed: both objects are stored and the heads advance.
  unfoldable pub record_op : Log → nodes.State → Op → View → ObjectId × Log
  unfolding remove_all put_idem
  record_op log s op v = (
    (put_op s op).0,
    record {
      store = put_view (put_op s op).1 v;
      heads = insert (put_op s op).0 (remove_all op.parents log.heads);
      verified = insert (put_op s op).0 log.verified;
      views = put (put_op s op).0 op.view log.views;
      idem = put_idem (idem_key op) (put_op s op).0 log.idem;
    },
  )

  unfoldable pub view_id : Log → ObjectId → Result ObjectId
  view_id log i = elim (lookup i log.views) [
    | some v ↦ ok v
    | none ↦ load_op log.store i >>= λ op. ok op.view
  ]

  unfoldable pub view_of : Log → ObjectId → Result View
  unfolding view_id
  view_of log i = view_id log i >>= λ v. load_view log.store v

  -- `verify::verify_op`: the view that the operation produces, and the store with the nodes that
  -- were saved on the way.
  module _ (verify_op : Log → Op → Result (View × nodes.State)) where
    unfoldable pub accept_new : Log → Op → Result (ObjectId × Log)
    unfolding check_parents record_op
    accept_new log op = check_parents log.verified op.parents >>= λ _.
        verify_op log op >>= λ (v, s). ok (record_op log s op v)

    unfoldable pub accept : Log → Op → Result (ObjectId × Log)
    unfolding known_as known_or accept_new
    accept log op = known_or (known_as log (idem_key op)) log (accept_new log op)

  -- The loop of `open`; `fuel` bounds its rounds.
  unfoldable pub open_loop : ℕ → Log → List ObjectId → Result Log
  unfolding put_idem
  open_loop fuel log [] = ok log
  open_loop zero log (i ∷ queue) = err Error.stuck
  open_loop (suc fuel) log (i ∷ queue) =
      let skip = open_loop fuel log queue in
      let read =
        (load_op log.store i >>= λ op.
        open_loop fuel
          (record log {
            views = put i op.view log.views;
            idem = put_idem (idem_key op) i log.idem;
            verified = insert i log.verified;
          })
          (queue ++ op.parents)) in
      if contains log.verified i then skip else read

  unfoldable pub open_log : ℕ → nodes.State → List ObjectId → Result Log
  unfolding open_loop new
  open_log fuel store heads =
      open_loop fuel (new store) heads >>= λ log. ok (record log { heads = from_list heads })

  unfoldable pub op_parents : nodes.State → ObjectId → Result (List ObjectId)
  op_parents s i = load_op s i >>= λ op. ok op.parents

  unfoldable pub ancestors : ℕ → Log → ObjectId → Result (List ObjectId)
  unfolding op_parents walk
  ancestors fuel log i = walk (op_parents log.store) fuel [] (i ∷ [])

  -- The operations that are ancestors of all of a list.
  unfoldable pub common : ℕ → Log → Option (List ObjectId) → List ObjectId → Result (List ObjectId)
  unfolding ancestors
  common fuel log none [] = ok []
  common fuel log (some c) [] = ok c
  common fuel log none (i ∷ is) = ancestors fuel log i >>= λ a. common fuel log (some a) is
  common fuel log (some c) (i ∷ is) =
      ancestors fuel log i >>= λ a. common fuel log (some (filter (λ x. contains a x) c)) is

  -- The loop that removes every proper ancestor of a common one.
  unfoldable pub latest : ℕ → Log → List ObjectId → List ObjectId → Result (List ObjectId)
  unfolding ancestors
  latest fuel log [] out = ok out
  latest fuel log (c ∷ cs) out = ancestors fuel log c >>= λ anc.
      latest fuel log cs (filter (λ d. eqb d c || not (contains anc d)) out)

  unfoldable pub lca : ℕ → Log → List ObjectId → Result (Option ObjectId)
  unfolding common latest
  lca fuel log ops = common fuel log none ops >>= λ c. latest fuel log c c >>= λ l. ok (head? l)
