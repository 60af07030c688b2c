-- ===== src/Oplog/Verify/Landed.antt =====
-- crates/tessra-oplog/src/verify.rs: `landed_revisions` with its cache, and `legacy_intent`.
pub mod Reachable
use tessra.Prelude.{
  ℕ, Bool, true, false, leb, List, [], ◌∷◌, ◌++◌, Bytes, length, drop, Option, none, some,
  if◌then◌else◌, eqb, lookup, sort, list_ord, nat_ord,
}
use tessra.Core.Result.{Result, ok, err, ◌>>=◌, Error}
use tessra.Core.Id.{EntityId, ObjectId}
use tessra.Core.Cbor.{decode}
use tessra.Oplog.View.Pointer.{Pointer, from_value, ids}
use tessra.Oplog.View.Data.{LineState, View, Effect, Op}
use tessra.Oplog.View.Merge.{entity}
use tessra.Oplog.Capability.{reading}
use tessra.Oplog.Walk.{walk}
use tessra.Oplog.Verify.Objects.{Objects, State, Revision, Intent, get_object}

-- `LANDED`: the sets last computed, by the heads of the lines.
abbrev pub Cache : Type 0
Cache = List (List ObjectId × List ObjectId)

abbrev pub landed_kept : ℕ
landed_kept = 16

-- `view.rs`
unfoldable pub line_head : LineState → Option Pointer
unfolding from_value
line_head ls = from_value ls.head

abbrev pub ids_of : Option Pointer → List ObjectId
ids_of none = []
ids_of (some p) = ids p

unfoldable pub head_ids : List (Bytes × LineState) → List ObjectId
unfolding line_head ids
head_ids [] = []
head_ids ((line, ls) ∷ lines) = ids_of (line_head ls) ++ head_ids lines

-- `cache.remove(0)` if the cache is full, then `push`.
unfoldable pub remember : List ObjectId → List ObjectId → Cache → Cache
remember key seen cache =
    (if leb landed_kept (length cache) then drop 1 cache else cache) ++ ((key, seen) ∷ [])

-- The first point of an entity among the effects of an operation.
unfoldable pub pointed : EntityId → List Effect → Option ObjectId
pointed id [] = none
pointed id (Effect.point e to from ∷ es) = if eqb e id then some to else pointed id es
pointed id (e ∷ es) = pointed id es

module _ (db : Objects) where
  open db use {cbor, get_bytes}

  -- What is no revision has no parents.
  abbrev pub parents_if : Result Revision → List ObjectId
  parents_if (ok r) = r.parents
  parents_if (err e) = []

  unfoldable pub parents_in : Option Bytes → List ObjectId
  parents_in none = []
  parents_in (some bytes) = parents_if (decode cbor db.revision bytes)

  unfoldable pub parents_of : State db → ObjectId → Result (List ObjectId)
  unfolding parents_in
  parents_of s i = get_bytes s i >>= λ r. ok (parents_in r)

  unfoldable pub landed_walk : ℕ → State db → List ObjectId → Result (List ObjectId)
  unfolding walk parents_of
  landed_walk fuel s key = walk (parents_of s) fuel [] key

  abbrev pub cached_or :
      Option (List ObjectId)
      → Cache
      → Result (List ObjectId × Cache)
      → Result (List ObjectId × Cache)
  cached_or (some seen) cache fresh = ok (seen, cache)
  cached_or none cache fresh = fresh

  unfoldable pub landed_revisions : ℕ → Cache → State db → View → Result (List ObjectId × Cache)
  unfolding head_ids landed_walk remember
  landed_revisions fuel cache s view =
      let key = sort (head_ids view.lines) in
      let fresh = (landed_walk fuel s key >>= λ seen. ok (seen, remember key seen cache)) in
      cached_or (lookup key cache) cache fresh

  -- The object of an intent: what the operation points it to, or what the view does.
  abbrev pub pointer_id : Option Pointer → Option ObjectId
  pointer_id (some (Pointer.id i)) = some i
  pointer_id _ = none

  abbrev pub intent_object : Option ObjectId → Result (Option Pointer) → Result (Option ObjectId)
  intent_object (some i) current = ok (some i)
  intent_object none current = current >>= λ p. ok (pointer_id p)

  abbrev pub is_legacy : Option Bool → Bool
  is_legacy (some b) = b
  is_legacy none = false

  unfoldable pub legacy_object : State db → Option ObjectId → Result Bool
  legacy_object s none = ok false
  legacy_object s (some i) = get_object db db.intent s i >>= λ x. ok (is_legacy x.legacy)

  unfoldable pub legacy_from : State db → View → Op → Option EntityId → Result Bool
  unfolding pointed legacy_object entity
  legacy_from s v op none = ok false
  legacy_from s v op (some id) =
      intent_object (pointed id op.effects) (reading (entity db.log.nodes v id) s) >>= λ i.
      legacy_object s i

  unfoldable pub legacy_intent : State db → View → Op → Revision → Result Bool
  unfolding legacy_from
  legacy_intent s v op rev = legacy_from s v op rev.intent
