-- ===== src/Oplog/Verify/Steps.antt =====
-- crates/tessra-oplog/src/verify.rs: `verify_op` and `verify_init`, the steps in their order.
pub mod Conditions
pub mod Accepted
pub mod Runs
use tessra.Prelude.{
  ℕ, Bool, true, false, ◌&&◌, ◌||◌, not, List, [], ◌∷◌, Bytes, codes, Option, none, some,
  if◌then◌else◌, head?, eqb, contains, list_ord, nat_ord,
}
use tessra.Core.Result.{Result, ok, err, ◌>>=◌, Error}
use tessra.Core.Id.{EntityId, ObjectId}
use tessra.Core.Cbor.{encode}
use tessra.Oplog.View.Data.{View, Effect, Op}
use tessra.Oplog.View.Merge.{empty, in_set, principal_revoked}
use tessra.Oplog.View.Apply.{apply}
use tessra.Oplog.Capability.{Capability, Principal, reading, resolve_principal, check_chain}
use tessra.Oplog.Dag.{Log, check_parents}
use tessra.Oplog.Dag.Views.{merged_view, current_view}
use tessra.Oplog.Standard.Data.{Unmet}
use tessra.Oplog.Verify.Objects.{
  Objects, State, Revision, get_object, is_signed, capability_store, demand, needed, at_step,
}
use tessra.Oplog.Verify.Scope.{check_authorizes}
use tessra.Oplog.Verify.Landed.{Cache, landed_revisions}
use tessra.Oplog.Verify.Legality.{principal_at_view, legal_all, same_id}

-- The bounds on the rounds of the walks, the height of the tries and the depth of the trees.
pub record Fuel : Type 0 where
  pub rounds : ℕ
  pub height : ℕ
  pub depth : ℕ

-- `author_v.key != Some(op.key)`
unfoldable pub has_key : Principal → Bytes → Bool
unfolding same_id
has_key p key = same_id p.key (some key)

module _ (db : Objects) where
  open db use {log, cbor, blake3}

  -- Step 3.
  unfoldable pub author_at_parents : State db → View → Op → Result (ObjectId × Principal)
  unfolding principal_at_view needed has_key demand
  author_at_parents s v op = principal_at_view db s v op.author >>= λ r. needed 3 r >>= λ (i, p).
      demand 3 (eqb p.status (codes "active")) >>= λ _.
      demand 3 (has_key p op.key) >>= λ _. ok (i, p)

  -- Step 4, on the author's version in the current view.
  unfoldable pub check_current : ObjectId → Op → Option (ObjectId × Principal) → Result (Unit {0})
  unfolding demand has_key
  check_current seen op none = ok tt
  check_current seen op (some (i, p)) =
      demand 4 (eqb i seen || has_key p op.key) >>= λ _. demand 4 (eqb p.status (codes "active"))

  unfoldable pub author_now : State db → View → ObjectId → Op → Result (Unit {0})
  unfolding check_current principal_at_view
  author_now s c seen op = reading (principal_revoked log.nodes c op.author) s >>= λ revoked.
      demand 4 (not revoked) >>= λ _.
      principal_at_view db s c op.author >>= λ r. check_current seen op r

  -- Step 6 for an author who is no owner.
  unfoldable pub authorized : ℕ → State db → View → View → Op → Result Capability
  unfolding needed demand check_authorizes
  authorized depth s v c op = needed 6 op.cap >>= λ i.
      reading (in_set log.nodes v.caps i) s >>= λ at_v. demand 6 at_v >>= λ _.
      reading (in_set log.nodes c.caps i) s >>= λ at_c. demand 6 at_c >>= λ _.
      get_object db db.capability.object s i >>= λ cap.
      demand 6 (eqb cap.subject op.author) >>= λ _.
      check_chain (capability_store db) s v cap >>= λ _.
      check_authorizes db depth s v cap op >>= λ _. ok cap

  unfoldable pub check_author : Bool → ℕ → State db → View → View → Op → Result (Unit {0})
  unfolding authorized
  check_author true depth s v c op = ok tt
  check_author false depth s v c op = authorized depth s v c op >>= λ _. ok tt

  -- Step 8: the effects produce the view that the operation claims.
  unfoldable pub produce : State db → View → Op → Result (View × State db)
  unfolding demand
  produce s v op = apply log.nodes v op.effects (head? op.parents) s >>= λ (produced, s').
      encode cbor db.view blake3 produced >>= λ e.
      demand 8 (eqb e.id op.view) >>= λ _. ok (produced, log.put_view s' produced)

  -- The effects that create the first owner.
  unfoldable pub self_signed : Op → Principal → Result Bool
  unfolding has_key at_step is_signed
  self_signed op p =
      if eqb p.id op.author && has_key p op.key && eqb p.status (codes "active")
      then (at_step 5 (is_signed db db.principal p op.key) >>= λ _. ok true)
      else ok false

  unfoldable pub creates_owner : Op → Effect → Bool
  creates_owner op (Effect.owner p) = eqb p op.author
  creates_owner op _ = false

  unfoldable pub creates_principal : State db → Op → Effect → Result Bool
  unfolding self_signed
  creates_principal s op (Effect.point e to from) =
      if eqb e op.author
      then (get_object db db.principal.object s to >>= λ p. self_signed op p)
      else ok false
  creates_principal s op _ = ok false

  -- The loop of `verify_init`, with its two flags.
  unfoldable pub init_effects : State db → Op → Bool → Bool → List Effect → Result (Bool × Bool)
  unfolding creates_owner creates_principal
  init_effects s op owner_effect principal_ok [] = ok (owner_effect, principal_ok)
  init_effects s op owner_effect principal_ok (e ∷ es) = creates_principal s op e >>= λ found.
      init_effects s op (owner_effect || creates_owner op e) (principal_ok || found) es

  abbrev pub is_empty_log : List ObjectId → Bool
  is_empty_log [] = true
  is_empty_log (h ∷ hs) = false

  unfoldable pub verify_init : Log log → Op → Result (View × State db)
  unfolding init_effects produce at_step is_signed empty
  verify_init l op = demand 2 (eqb op.kind (codes "init")) >>= λ _.
      demand 2 (is_empty_log l.heads) >>= λ _. at_step 5 (is_signed db db.op op op.key) >>= λ _.
      init_effects l.store op false false op.effects >>= λ (owner_effect, principal_ok).
      demand 7 (owner_effect && principal_ok) >>= λ _.
      empty log.nodes l.store >>= λ (v, s). produce s v op

  module _
      (evaluate : State db
        → View
        → EntityId
        → ObjectId
        → Revision
        → List ObjectId
        → Result (List Unmet))
      (fuel : Fuel) (cache : Cache) where
    -- Step 7.
    unfoldable pub check_legality : State db → View → Op → Bool → Result (Unit {0})
    unfolding landed_revisions legal_all
    check_legality s v op is_owner =
        landed_revisions db fuel.rounds cache s v >>= λ (landed, cache').
        legal_all db evaluate s v landed op is_owner op.effects

    -- The steps from the third on, at the view of the parents and the current one.
    unfoldable pub verify_at : State db → View → View → Op → Result (View × State db)
    unfolding author_at_parents author_now check_author check_legality produce at_step is_signed
    verify_at s v c op = author_at_parents s v op >>= λ (seen, author).
        author_now s c seen op >>= λ _. at_step 5 (is_signed db db.op op op.key) >>= λ _.
        check_author (contains v.owners op.author) fuel.depth s v c op >>= λ _.
        check_legality s v op (contains v.owners op.author) >>= λ _. produce s v op

    unfoldable pub verify_next : Log log → Op → Result (View × State db)
    unfolding check_parents merged_view current_view verify_at
    verify_next l op = check_parents l.verified op.parents >>= λ _.
        merged_view log fuel.rounds fuel.height l op.parents l.store >>= λ (v, s1).
        current_view log fuel.rounds fuel.height l s1 >>= λ (c, s2). verify_at s2 v c op

    unfoldable pub verify_parents : Log log → Op → List ObjectId → Result (View × State db)
    unfolding verify_init verify_next
    verify_parents l op [] = verify_init l op
    verify_parents l op (p ∷ ps) = verify_next l op

    unfoldable pub verify_op : Log log → Op → Result (View × State db)
    unfolding verify_parents
    verify_op l op = encode cbor db.op.object blake3 op >>= λ _. verify_parents l op op.parents
