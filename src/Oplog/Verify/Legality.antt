-- ===== src/Oplog/Verify/Legality.antt =====
-- crates/tessra-oplog/src/verify.rs: `check_legality`, step 7. The evaluation of a line's standard
-- (crates/tessra-oplog/src/standard.rs) is an argument: its result is the clauses that do not hold.
pub mod Moves
pub mod Principals
use tessra.Prelude.{
  ℕ, zero, suc, ◌+◌, ◌%◌, ◌^◌, Bool, true, false, ◌||◌, ◌&&◌, not, ◌==◌, List, [], ◌∷◌, Bytes,
  codes, Option, none, some, if◌then◌else◌, is_some, head?, eqb, contains, lookup, list_ord,
  nat_ord,
}
use mathlib.Core.Bool.{decide}
use native.Mathlib.Decide.{ℕ_discrete}
use tessra.Core.Result.{Result, ok, err, ◌>>=◌, Error}
use tessra.Core.Id.{EntityId, ObjectId}
use tessra.Core.Value.{Value}
use tessra.Core.Cbor.{decode, peek_tag}
use tessra.Oplog.View.Pointer.{Pointer, from_value, single}
use tessra.Oplog.View.Data.{LineState, View, Effect, Op}
use tessra.Oplog.View.Merge
use tessra.Oplog.View.Merge.{entity, principal_revoked}
use tessra.Oplog.Capability.{Principal, reading, resolve_principal}
use tessra.Oplog.Standard.Data.{Unmet}
use tessra.Oplog.Verify.Objects.{
  Objects, State, Revision, Hook, found, get_object, has_object, is_signed, capability_store,
  demand, needed, at_step,
}
use tessra.Oplog.Verify.Landed.{line_head, legacy_intent}

unfoldable pub Pointer-discrete : Discrete Pointer
Pointer-discrete = hlevel ℕ_discrete

-- `==` on optional pointers.
unfoldable pub same_pointer : Option Pointer → Option Pointer → Bool
unfolding Pointer-discrete
same_pointer none none = true
same_pointer (some a) (some b) = decide (Pointer-discrete a b)
same_pointer _ _ = false

-- `.as_ref().and_then(Pointer::from_value)`
unfoldable pub expected : Option Value → Option Pointer
unfolding from_value
expected none = none
expected (some v) = from_value v

-- `==` on optional IDs.
unfoldable pub same_id : Option ObjectId → Option ObjectId → Bool
same_id none none = true
same_id (some a) (some b) = eqb a b
same_id _ _ = false

abbrev pub is_empty {ℓ} : {A : Type ℓ} → List A → Bool
is_empty [] = true
is_empty (x ∷ xs) = false

-- A revision that is not the first version of its change.
unfoldable pub follows : List ObjectId → Op → Revision → Option Pointer → Result (Unit {0})
unfolding demand same_id
follows landed op r (some (Pointer.id cur)) =
    demand 7 (not (contains landed cur && not (eqb op.kind (codes "restack")))) >>= λ _.
    demand 7 (same_id r.prev (some cur))
follows landed op r _ = ok tt

unfoldable pub legal_revision :
    List ObjectId → Op → EntityId → Option Pointer → Revision → Result (Unit {0})
unfolding follows
legal_revision landed op e current r = demand 7 (eqb r.id e) >>= λ _. follows landed op r current

unfoldable pub legal_hook : Op → Bool → Hook → Result (Unit {0})
unfolding demand
legal_hook op is_owner h = demand 7 (eqb h.run_as op.author || is_owner)

-- The creation of a line.
unfoldable pub legal_creation : Bool → Option EntityId → Option Value → ℕ → Result (Unit {0})
unfolding demand
legal_creation is_owner id from seq =
    demand 7 is_owner >>= λ _. demand 7 (is_some id && not (is_some from) && seq == 0)

-- Whether a revision sits on the head.
unfoldable pub on_head : Option Pointer → Option ObjectId → Bool
on_head (some (Pointer.id h)) (some p) = eqb h p
on_head _ _ = false

-- The head that an operation saw, and the next number; an `u64` wraps.
unfoldable pub advances : Op → LineState → Option Value → ℕ → Result (Unit {0})
unfolding demand same_pointer line_head expected
advances op ls from seq = demand 7 (eqb ls.coordinator op.author) >>= λ _.
    demand 7 (same_pointer (line_head ls) (expected from)) >>= λ _.
    demand 7 (seq == (ls.seq + 1) % 2 ^ 64)

module _ (db : Objects) where
  open db use {cbor, get_bytes, log}

  unfoldable pub principal_at_view :
      State db → View → EntityId → Result (Option (ObjectId × Principal))
  principal_at_view s v id = resolve_principal (capability_store db) s v id

  -- A new session is signed by its agent.
  unfoldable pub legal_session : State db → View → Principal → Result (Unit {0})
  unfolding needed principal_at_view demand at_step is_signed
  legal_session s v p = needed 7 p.parent >>= λ parent_id. principal_at_view s v parent_id >>= λ r.
      needed 7 r >>= λ (i, parent). demand 7 (eqb parent.kind (codes "agent")) >>= λ _.
      needed 7 parent.key >>= λ k. at_step 7 (is_signed db db.principal p k)

  unfoldable pub legal_new_principal : State db → View → Op → Bool → Principal → Result (Unit {0})
  unfolding legal_session
  legal_new_principal s v op is_owner p =
      if eqb p.kind (codes "session")
      then legal_session s v p
      else (demand 7 is_owner >>= λ _. at_step 7 (is_signed db db.principal p op.key))

  -- `!is_owner && !vs.principal_revoked(..)?`
  unfoldable pub may_revoke : State db → View → Bool → EntityId → Result (Unit {0})
  may_revoke s v true id = ok tt
  may_revoke s v false id =
      reading (principal_revoked log.nodes v id) s >>= λ revoked. demand 7 revoked

  unfoldable pub legal_rotation : Principal → Principal → Result (Unit {0})
  legal_rotation old p = needed 7 old.key >>= λ k. at_step 7 (is_signed db db.principal p k)

  unfoldable pub legal_next_principal :
      State db → View → Bool → Principal → ObjectId → Result (Unit {0})
  unfolding may_revoke legal_rotation
  legal_next_principal s v is_owner p cur = get_object db db.principal.object s cur >>= λ old.
      demand 7 (same_id p.prev (some cur)) >>= λ _.
      if eqb p.status (codes "revoked") then may_revoke s v is_owner p.id else legal_rotation old p

  unfoldable pub legal_version :
      State db → View → Op → Bool → Option Pointer → Principal → Result (Unit {0})
  unfolding legal_new_principal legal_next_principal
  legal_version s v op is_owner none p = legal_new_principal s v op is_owner p
  legal_version s v op is_owner (some (Pointer.id cur)) p = legal_next_principal s v is_owner p cur
  legal_version s v op is_owner (some (Pointer.conflict c)) p = ok tt

  unfoldable pub legal_principal :
      State db → View → Op → Bool → EntityId → Option Pointer → Principal → Result (Unit {0})
  unfolding legal_version
  legal_principal s v op is_owner e current p =
      demand 7 (eqb p.id e) >>= λ _. legal_version s v op is_owner current p

  -- What an entity is pointed to, by the tag of the object.
  unfoldable pub legal_object :
      State db
      → View
      → List ObjectId
      → Op
      → Bool
      → EntityId
      → Option Pointer
      → Bytes
      → Bytes
      → Result (Unit {0})
  unfolding legal_revision legal_hook legal_principal
  legal_object s v landed op is_owner e current bytes tag =
      if eqb tag (codes "revision")
      then (decode cbor db.revision bytes >>= λ r. legal_revision landed op e current r)
      else if eqb tag (codes "hook")
      then (decode cbor db.hook bytes >>= λ h. legal_hook op is_owner h)
      else if eqb tag (codes "principal")
      then (decode cbor db.principal.object bytes >>= λ p.
          legal_principal s v op is_owner e current p)
      else ok tt

  unfoldable pub legal_point :
      State db
      → View
      → List ObjectId
      → Op
      → Bool
      → EntityId
      → ObjectId
      → Option Value
      → Result (Unit {0})
  unfolding same_pointer expected legal_object
  legal_point s v landed op is_owner e to from = reading (entity log.nodes v e) s >>= λ current.
      demand 7 (same_pointer current (expected from)) >>= λ _. get_bytes s to >>= λ r.
      found to r >>= λ bytes.
      peek_tag cbor bytes >>= λ tag. legal_object s v landed op is_owner e current bytes tag

  -- The loop over the cited attestations.
  unfoldable pub cited : State db → List ObjectId → Result (Unit {0})
  unfolding has_object
  cited s [] = ok tt
  cited s (a ∷ as') = has_object db s a >>= λ present. demand 7 present >>= λ _. cited s as'

  -- A landing that is imported history.
  unfoldable pub is_history : State db → View → Op → Bool → List ObjectId → Revision → Result Bool
  unfolding legacy_intent
  is_history s v op is_owner attests rev =
      if is_owner && eqb op.kind (codes "import") && is_empty attests
      then legacy_intent db s v op rev
      else ok false

  unfoldable pub line_standard : State db → Option Pointer → Result EntityId
  unfolding single
  line_standard s none = err (Error.rejected 7)
  line_standard s (some p) = single p >>= λ i. get_object db db.line s i >>= λ l. ok l.standard

  unfoldable pub legal_claim : State db → Op → EntityId → ObjectId → Result (Unit {0})
  unfolding demand get_object
  legal_claim s op claim to = get_object db db.claim s to >>= λ c.
      demand 7 (eqb c.principal op.author) >>= λ _. demand 7 (eqb c.id claim)

  unfoldable pub legal_release : State db → Op → Bool → Option Pointer → Result (Unit {0})
  unfolding demand get_object
  legal_release s op is_owner (some (Pointer.id cur)) =
      get_object db db.claim s cur >>= λ c. demand 7 (eqb c.principal op.author || is_owner)
  legal_release s op is_owner _ = ok tt

  module _
      (evaluate : State db
        → View
        → EntityId
        → ObjectId
        → Revision
        → List ObjectId
        → Result (List Unmet)) where
    unfoldable pub meets_standard :
        State db → View → LineState → ObjectId → Revision → List ObjectId → Result (Unit {0})
    unfolding line_standard demand
    meets_standard s v ls to rev attests = reading (entity log.nodes v ls.id) s >>= λ p.
        line_standard s p >>= λ standard.
        evaluate s v standard to rev attests >>= λ unmet. demand 7 (is_empty unmet)

    -- A landing that the code has told from history or not.
    unfoldable pub legal_landing :
        State db → View → LineState → ObjectId → Revision → List ObjectId → Bool → Result (Unit {0})
    unfolding on_head meets_standard
    legal_landing s v ls to rev attests true = demand 7 (on_head (line_head ls) (head? rev.parents))
    legal_landing s v ls to rev attests false = meets_standard s v ls to rev attests

    unfoldable pub legal_advance :
        State db
        → View
        → Op
        → Bool
        → LineState
        → ObjectId
        → Revision
        → Option Value
        → ℕ
        → List ObjectId
        → Result (Unit {0})
    unfolding advances cited is_history legal_landing
    legal_advance s v op is_owner ls to rev from seq attests = advances op ls from seq >>= λ _.
        cited s attests >>= λ _. is_history s v op is_owner attests rev >>= λ history.
        legal_landing s v ls to rev attests history

    unfoldable pub legal_move :
        State db
        → View
        → Op
        → Bool
        → Option LineState
        → ObjectId
        → Revision
        → Option Value
        → ℕ
        → List ObjectId
        → Option EntityId
        → Result (Unit {0})
    unfolding legal_creation legal_advance
    legal_move s v op is_owner none to rev from seq attests id = legal_creation is_owner id from seq
    legal_move s v op is_owner (some ls) to rev from seq attests id =
        legal_advance s v op is_owner ls to rev from seq attests

    unfoldable pub legal : State db → View → List ObjectId → Op → Bool → Effect → Result (Unit {0})
    unfolding legal_point legal_move legal_claim legal_release
    legal s v landed op is_owner (Effect.point e to from) =
        legal_point s v landed op is_owner e to from
    legal s v landed op is_owner (Effect.head line to from seq attests id) =
        get_object db db.revision s to >>= λ rev.
        legal_move s v op is_owner (lookup line v.lines) to rev from seq attests id
    legal s v landed op is_owner (Effect.tomb o r) = demand 7 (eqb op.kind (codes "redact"))
    legal s v landed op is_owner (Effect.owner p) = demand 7 is_owner
    legal s v landed op is_owner (Effect.unowner p) = demand 7 is_owner
    legal s v landed op is_owner (Effect.coordinator line to) = demand 7 is_owner
    legal s v landed op is_owner (Effect.claim claim to) = legal_claim s op claim to
    legal s v landed op is_owner (Effect.unclaim claim) =
        reading (Merge.claim log.nodes v claim) s >>= λ p. legal_release s op is_owner p
    legal s v landed op is_owner _ = ok tt

    unfoldable pub legal_all :
        State db → View → List ObjectId → Op → Bool → List Effect → Result (Unit {0})
    unfolding legal
    legal_all s v landed op is_owner [] = ok tt
    legal_all s v landed op is_owner (e ∷ es) =
        legal s v landed op is_owner e >>= λ _. legal_all s v landed op is_owner es
