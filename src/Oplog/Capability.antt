-- ===== src/Oplog/Capability.antt =====
-- crates/tessra-oplog/src/verify.rs: the delegation chain of a capability, and when a capability
-- exceeds its parent. The types are those of crates/tessra-core/src/object.rs.
pub mod Chains
pub mod Attenuation
pub mod Runs
use tessra.Prelude.{
  ℕ, zero, suc, ℤ, ◌+◌, ltb, leb, Bool, true, false, ◌&&◌, not, List, [], ◌∷◌, Bytes, codes, Option,
  none, some, is_some, if◌then◌else◌, all, any, eqb, contains, lookup, list_ord, nat_ord,
}
use tessra.Core.Result.{Result, ok, err, ◌>>=◌, Error}
use tessra.Core.State.{M}
use tessra.Core.Id.{EntityId, ObjectId}
use tessra.Core.Value.{Value}
use tessra.Core.Trie.Ops.Store.{NodeStore}
use tessra.Oplog.Glob
use tessra.Oplog.View.Pointer.{Pointer}
use tessra.Oplog.View.Data.{View}
use tessra.Oplog.View.Merge.{entity, in_set, principal_revoked}

pub record WriteScope : Type 0 where
  pub paths : Option (List Bytes)
  pub roots : Option (List Bytes)
  pub stages : Option (List Bytes)
  pub memory_scopes : Option (List Bytes)
  pub nodes : Option (List EntityId)
  pub lines : Option (List EntityId)
  pub targets : Option (List EntityId)

pub record ReadScope : Type 0 where
  pub roots : Option (List Bytes)
  pub paths : Option (List Bytes)
  pub memory : Option Bytes

pub record Capability : Type 0 where
  pub issuer : EntityId
  pub subject : EntityId
  pub verbs : List Bytes
  pub write : WriteScope
  pub read : ReadScope
  pub hard : Option (List (Bytes × ℕ))
  pub advisory : Option (List (Bytes × ℤ))
  pub delegable : Bool
  pub parent : Option ObjectId
  pub nonce : EntityId
  pub time : ℤ
  pub sig : Option Bytes

-- The fields of a principal that verification reads.
pub record Principal : Type 0 where
  pub id : EntityId
  pub prev : Option ObjectId
  pub key : Option Bytes
  pub kind : Bytes
  pub parent : Option EntityId
  pub model : Option Bytes
  pub status : Bytes

-- The closures of `contained_in`.
unfoldable pub paths_ok : Option (List Bytes) → Option (List Bytes) → Bool
paths_ok c none = true
paths_ok none (some ps) = false
paths_ok (some cs) (some ps) = all (λ cp. any (λ pp. Glob.contained cp pp) ps) cs

unfoldable pub list_ok : Option (List Bytes) → Option (List Bytes) → Bool
list_ok c none = true
list_ok none (some ps) = false
list_ok (some cs) (some ps) = all (λ x. contains ps x) cs

unfoldable pub below_limit : Option ℕ → ℕ → Bool
below_limit none v = false
below_limit (some pv) v = leb v pv

unfoldable pub hard_ok : Option (List (Bytes × ℕ)) → Option (List (Bytes × ℕ)) → Bool
unfolding below_limit
hard_ok c none = true
hard_ok none (some p) = false
hard_ok (some c) (some p) = all (λ (e : Bytes × ℕ). below_limit (lookup e.0 p) e.1) c

unfoldable pub contained_in : Capability → Capability → Bool
unfolding paths_ok list_ok hard_ok
contained_in child parent =
    all (λ v. contains parent.verbs v) child.verbs
    && paths_ok child.write.paths parent.write.paths
    && paths_ok child.read.paths parent.read.paths
    && list_ok child.write.roots parent.write.roots
    && list_ok child.write.stages parent.write.stages
    && list_ok child.write.memory_scopes parent.write.memory_scopes
    && list_ok child.write.nodes parent.write.nodes
    && list_ok child.write.lines parent.write.lines
    && list_ok child.write.targets parent.write.targets
    && hard_ok child.hard parent.hard

-- A read of the store, which leaves it as it is.
abbrev pub reading : {S A : Type 0} → M S A → S → Result A
reading m s = elim (m s) [ ok (a, s') ↦ ok a | err e ↦ err e ]

-- What the checks read besides the tries of a view, and the check of a signature.
pub record CapabilityStore : Type 1 where
  pub nodes : NodeStore
  pub load_principal : nodes.State → ObjectId → Result Principal
  pub load_capability : nodes.State → ObjectId → Result Capability
  pub verify_with : Capability → Bytes → Bool

module _ (db : CapabilityStore) where
  open db use {nodes, load_principal, load_capability, verify_with}

  unfoldable pub principal_at :
      nodes.State → Option Pointer → Result (Option (ObjectId × Principal))
  principal_at s none = ok none
  principal_at s (some (Pointer.conflict c)) = err (Error.rejected 3)
  principal_at s (some (Pointer.id i)) = load_principal s i >>= λ p. ok (some (i, p))

  unfoldable pub resolve_principal :
      nodes.State → View → EntityId → Result (Option (ObjectId × Principal))
  unfolding principal_at
  resolve_principal s view id = reading (entity nodes view id) s >>= λ p. principal_at s p

  -- `.ok_or_else(..)?`
  unfoldable pub required {ℓ} : {A : Type ℓ} → Option A → Result A
  required none = err (Error.rejected 6)
  required (some a) = ok a

  unfoldable pub require : Bool → Result (Unit {0})
  require true = ok tt
  require false = err (Error.rejected 6)

  -- The checks on the issuer of one link.
  unfoldable pub check_issuer : nodes.State → View → Capability → Result (Unit {0})
  unfolding resolve_principal required require
  check_issuer s view cur = resolve_principal s view cur.issuer >>= λ r.
      required r >>= λ (i, issuer). require (eqb issuer.status (codes "active")) >>= λ _.
      reading (principal_revoked nodes view cur.issuer) s >>= λ revoked.
      require (not revoked) >>= λ _. required issuer.key >>= λ key. require (verify_with cur key)

  -- The checks on the parent of one link.
  unfoldable pub accept_parent : Capability → Capability → Result Capability
  unfolding require contained_in
  accept_parent cur parent = require (eqb parent.subject cur.issuer) >>= λ _.
      require parent.delegable >>= λ _. require (contained_in cur parent) >>= λ _. ok parent

  unfoldable pub check_parent : nodes.State → View → Capability → ObjectId → Result Capability
  unfolding require accept_parent
  check_parent s view cur pid = reading (in_set nodes view.caps pid) s >>= λ active.
      require active >>= λ _. load_capability s pid >>= λ parent. accept_parent cur parent

  unfoldable pub check_end :
      nodes.State
      → View
      → Capability
      → Option ObjectId
      → (Capability → Result (Unit {0}))
      → Result (Unit {0})
  unfolding check_parent
  check_end s view cur none onward = require (contains view.owners cur.issuer)
  check_end s view cur (some pid) onward = check_parent s view cur pid >>= onward

  -- The loop, with the rounds that `guard` leaves; the round after the last one is refused.
  unfoldable pub check_loop : ℕ → nodes.State → View → Capability → Result (Unit {0})
  unfolding check_issuer check_end
  check_loop zero s view cur = err (Error.rejected 6)
  check_loop (suc guard) s view cur =
      let onward = λ (parent : Capability). check_loop guard s view parent in
      check_issuer s view cur >>= λ _. check_end s view cur cur.parent onward

  unfoldable pub check_chain : nodes.State → View → Capability → Result (Unit {0})
  unfolding check_loop
  check_chain s view cap = check_loop 64 s view cap
