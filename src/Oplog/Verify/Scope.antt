-- ===== src/Oplog/Verify/Scope.antt =====
-- crates/tessra-oplog/src/verify.rs: what a capability authorizes.
pub mod Inside
use tessra.Prelude.{
  ℕ, Bool, true, false, ◌||◌, not, List, [], ◌∷◌, Bytes, codes, Option, none, some, if◌then◌else◌,
  head?, eqb, contains, lookup, list_ord, nat_ord,
}
use tessra.Core.Result.{Result, ok, err, ◌>>=◌, Error}
use tessra.Core.Id.{EntityId, ObjectId}
use tessra.Core.Cbor.{decode, peek_tag}
use tessra.Oplog.Glob.{any_match}
use tessra.Oplog.View.Data.{LineState, View, Effect, Op}
use tessra.Oplog.Capability.{Capability}
use tessra.Oplog.Verify.Objects.{Objects, State, Revision, found, get_object, demand, needed}
use tessra.Oplog.Verify.Trees.{changed_paths}

abbrev pub ungated : List Bytes
ungated =
    codes "status"
    ∷ codes "context"
    ∷ codes "query"
    ∷ codes "workspace"
    ∷ codes "snapshot"
    ∷ codes "claim"
    ∷ codes "undo"
    ∷ codes "sync"
    ∷ codes "merge_view"
    ∷ []

-- `if let Some(list) = .. { if !list.contains(x) { .. } }`
unfoldable pub allowed : Option (List Bytes) → Bytes → Result (Unit {0})
unfolding demand
allowed none x = ok tt
allowed (some xs) x = demand 6 (contains xs x)

-- The tags of the entities that take the verb of their name to change.
unfoldable pub is_governed : Bytes → Bool
is_governed tag =
    eqb tag (codes "standard")
    || eqb tag (codes "hook")
    || eqb tag (codes "channel")
    || eqb tag (codes "target")
    || eqb tag (codes "line")

-- The loop over the changed paths.
unfoldable pub check_paths : List Bytes → List Bytes → Result (Unit {0})
unfolding demand any_match
check_paths scope [] = ok tt
check_paths scope (p ∷ ps) = demand 6 (any_match scope p) >>= λ _. check_paths scope ps

unfoldable pub paths_allowed : Option (List Bytes) → List Bytes → Result (Unit {0})
unfolding check_paths
paths_allowed none changed = ok tt
paths_allowed (some scope) changed = check_paths scope changed

module _ (db : Objects) (depth : ℕ) where
  open db use {cbor, get_bytes}

  unfoldable pub first_parent : State db → Option ObjectId → Result (Option Revision)
  first_parent s none = ok none
  first_parent s (some p) = get_object db db.revision s p >>= λ r. ok (some r)

  unfoldable pub root_of : State db → Option ObjectId → Result (Option ObjectId)
  root_of s none = ok none
  root_of s (some i) = get_object db db.snapshot s i >>= λ snap. ok (some snap.root)

  -- The tree of a root in the first parent.
  unfoldable pub old_root : State db → Option Revision → Bytes → Result (Option ObjectId)
  unfolding root_of
  old_root s none root = ok none
  old_root s (some p) root = root_of s (lookup root p.snapshots)

  -- One root of the loop of `check_write_scope`.
  unfoldable pub check_root :
      State db → Capability → Option Revision → Bytes → ObjectId → Result (Unit {0})
  unfolding allowed old_root paths_allowed changed_paths
  check_root s cap parent root snap_id = allowed cap.write.roots root >>= λ _.
      get_object db db.snapshot s snap_id >>= λ snap. old_root s parent root >>= λ old.
      changed_paths db depth s old snap.root >>= λ changed. paths_allowed cap.write.paths changed

  unfoldable pub check_roots :
      State db → Capability → Option Revision → List (Bytes × ObjectId) → Result (Unit {0})
  unfolding check_root
  check_roots s cap parent [] = ok tt
  check_roots s cap parent ((root, snap) ∷ rest) =
      check_root s cap parent root snap >>= λ _. check_roots s cap parent rest

  unfoldable pub check_write_scope : State db → Capability → ObjectId → Result (Unit {0})
  unfolding first_parent check_roots
  check_write_scope s cap rev_id = get_object db db.revision s rev_id >>= λ rev.
      first_parent s (head? rev.parents) >>= λ parent. check_roots s cap parent rev.snapshots

  unfoldable pub authorize_line : Capability → Option LineState → Result (Unit {0})
  unfolding allowed
  authorize_line cap none = err (Error.rejected 6)
  authorize_line cap (some ls) = allowed cap.write.lines ls.id

  -- What `point` sets an entity to, by the tag of the object.
  unfoldable pub authorize_object : Capability → Bytes → Bytes → Result (Unit {0})
  unfolding allowed is_governed
  authorize_object cap bytes tag =
      if eqb tag (codes "memory")
      then (decode cbor db.memory bytes >>= λ m. allowed cap.write.memory_scopes m.scope_kind)
      else if is_governed tag
      then demand 6 (contains cap.verbs tag)
      else ok tt

  -- One effect of the loop of `check_authorizes`.
  unfoldable pub authorize : State db → View → Capability → Effect → Result (Unit {0})
  unfolding check_write_scope authorize_line authorize_object
  authorize s view cap (Effect.propose rev) =
      check_write_scope s cap rev >>= λ _. allowed cap.write.stages (codes "proposed")
  authorize s view cap (Effect.head line to from seq attests id) =
      check_write_scope s cap to >>= λ _.
      authorize_line cap (lookup line view.lines) >>= λ _. allowed cap.write.stages (codes "landed")
  authorize s view cap (Effect.deploy target release) = allowed cap.write.targets target
  authorize s view cap (Effect.point e to from) = get_bytes s to >>= λ r.
      found to r >>= λ bytes. peek_tag cbor bytes >>= λ tag. authorize_object cap bytes tag
  authorize s view cap (Effect.owner p) = err (Error.rejected 6)
  authorize s view cap (Effect.unowner p) = err (Error.rejected 6)
  authorize s view cap (Effect.coordinator line to) = err (Error.rejected 6)
  authorize s view cap (Effect.root r) = err (Error.rejected 6)
  authorize s view cap (Effect.unroot r) = err (Error.rejected 6)
  authorize s view cap (Effect.revoke p) = demand 6 (contains cap.verbs (codes "revoke"))
  authorize s view cap (Effect.tomb o r) = demand 6 (contains cap.verbs (codes "redact"))
  authorize s view cap _ = ok tt

  unfoldable pub authorize_all : State db → View → Capability → List Effect → Result (Unit {0})
  unfolding authorize
  authorize_all s view cap [] = ok tt
  authorize_all s view cap (e ∷ es) = authorize s view cap e >>= λ _. authorize_all s view cap es

  unfoldable pub check_authorizes : State db → View → Capability → Op → Result (Unit {0})
  unfolding authorize_all
  check_authorizes s view cap op =
      demand 6 (contains ungated op.kind || contains cap.verbs op.kind) >>= λ _.
      authorize_all s view cap op.effects
