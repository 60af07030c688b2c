-- ===== src/Oplog/Verify/Legality/Principals.antt =====
-- A legal version of a principal is signed by whoever may make it.
use tessra.Prelude.{
  ℕ, ◌≡◌, ◌≢◌, refl, ap, Bool, true, Bytes, codes, Option, none, some, ◌⊎◌, list_ord, nat_ord,
}
use tessra.Core.Result.{Result, ok, err, ok-injective}
use tessra.Core.Id.{EntityId, ObjectId}
use tessra.Oplog.View.Pointer.{Pointer}
use tessra.Oplog.View.Data.{View, Op}
use tessra.Oplog.View.Merge.{principal_revoked}
use tessra.Oplog.Capability.{Principal, reading}
use tessra.Oplog.Verify.Objects.{Objects, State, get_object, is_signed, needed, at_step}
use tessra.Oplog.Verify.Legality.{principal_at_view}

pub needed-some {ℓ} :
    {A : Type ℓ} (step : ℕ) (o : Option A) (a : A) → needed step o ≡ ok a → o ≡ some a
unfolding needed
needed-some step none a e = cc
needed-some step (some x) a e = ap some (ok-injective e)

pub at_step-ok : (step : ℕ) (r : Result (Unit {0})) → at_step step r ≡ ok tt → r ≡ ok tt
unfolding at_step
at_step-ok step (ok t) e = refl
at_step-ok step (err x) e = cc

module _ (db : Objects) (s : State db) (v : View) (op : Op) (is_owner : Bool) where
  -- A new session is signed with the key of the agent that it names.
  abbrev pub IsSession : Principal → Type 0
  IsSession p =
      (parent_id : EntityId) × (i : ObjectId) × (parent : Principal) × (k : Bytes) × (p.parent
        ≡ some parent_id)
      × (principal_at_view db s v parent_id ≡ ok (some (i, parent)))
      × (parent.kind ≡ codes "agent")
      × (parent.key ≡ some k)
      × (is_signed db db.principal p k ≡ ok tt)

  -- Another new principal is made by an owner, who signs it with the key of the operation.
  abbrev pub IsEnrolled : Principal → Type 0
  IsEnrolled p = (is_owner ≡ true) × (is_signed db db.principal p op.key ≡ ok tt)

  -- A later version names the one before it. A revocation is an owner's or has happened already, and any
  -- other version is signed with the key of the one before it.
  abbrev pub IsSuccessor : Principal → ObjectId → Type 0
  IsSuccessor p cur =
      (old : Principal) × (get_object db db.principal.object s cur ≡ ok old)
      × (p.prev ≡ some cur)
      × (((p.status ≡ codes "revoked")
            × ((is_owner ≡ true) ⊎ (reading (principal_revoked db.log.nodes v p.id) s ≡ ok true)))
          ⊎ ((k : Bytes) × (old.key ≡ some k) × (is_signed db db.principal p k ≡ ok tt)))

  abbrev pub VersionLegal : Option Pointer → Principal → Type 0
  VersionLegal none p =
      ((p.kind ≡ codes "session") × IsSession p) ⊎ ((p.kind ≢ codes "session") × IsEnrolled p)
  VersionLegal (some (Pointer.id cur)) p = IsSuccessor p cur
  VersionLegal (some (Pointer.conflict c)) p = Unit {0}
