-- ===== src/Oplog/Verify/Steps/Conditions.antt =====
-- What each step of `verify_op` that passes says of the operation.
use tessra.Prelude.{
  ℕ, ◌≤◌, ◌≡◌, refl, sym, ap, ◌∙◌, subst, arith, Bool, true, false, ◌||◌, not, List, Bytes, codes,
  All, Option, none, some, head?, eqb, eqb_iff, contains, Bool-cases, inl, inr, ◌⊎◌, list_ord,
  nat_ord,
}
use tessra.Core.Result.{Result, ok, >>=-eq-ok, ok-injective}
use tessra.Core.Id.{EntityId, ObjectId}
use tessra.Core.Cbor.{Encoded, encode}
use tessra.Oplog.View.Data.{View, Op}
use tessra.Oplog.View.Merge.{in_set, principal_revoked}
use tessra.Oplog.View.Apply.{apply}
use tessra.Oplog.Capability.{Capability, Principal, reading, check_chain}
use tessra.Oplog.Capability.Chains.{Chain, check_chain_iff}
use tessra.Oplog.Standard.Data.{Unmet}
use tessra.Oplog.Verify.Objects.{
  Objects, State, Revision, get_object, is_signed, capability_store, demand, needed, at_step,
}
use tessra.Oplog.Verify.Scope.{ungated, check_authorizes}
use tessra.Oplog.Verify.Scope.Inside.{EffectConfined, check_authorizes-All, demand-true, both_pass}
use tessra.Oplog.Verify.Landed.{Cache, landed_revisions}
use tessra.Oplog.Verify.Legality.{principal_at_view}
use tessra.Oplog.Verify.Legality.Moves.{EffectLegal, legal_all-All, same_id_sound}
use tessra.Oplog.Verify.Legality.Principals.{needed-some, at_step-ok}
use tessra.Oplog.Verify.Steps.{
  Fuel, has_key, author_at_parents, check_current, author_now, authorized, check_author, produce,
  check_legality, verify_at,
}

not-true : (b : Bool) → not b ≡ true → b ≡ false
not-true b h = ground arith

has_key_sound : (p : Principal) (key : Bytes) → has_key p key ≡ true → p.key ≡ some key
unfolding has_key
has_key_sound p key h = same_id_sound p.key (some key) h

module _ (db : Objects) (s : State db) (v c : View) (op : Op) where
  -- The author is active at the parents, with the key of the operation.
  abbrev IsAuthor : ObjectId → Principal → Type 0
  IsAuthor seen author =
      (principal_at_view db s v op.author ≡ ok (some (seen, author)))
      × (author.status ≡ codes "active")
      × (author.key ≡ some op.key)

  -- The version in the current view, if there is one, is active, and unless it is the one that the
  -- operation saw it has the same key.
  abbrev StillAuthor : ObjectId → Option (ObjectId × Principal) → Type 0
  StillAuthor seen none = Unit {0}
  StillAuthor seen (some (i, p)) =
      ((i ≡ seen) ⊎ (p.key ≡ some op.key)) × (p.status ≡ codes "active")

  -- The author is not revoked now.
  abbrev IsCurrent : ObjectId → Type 0
  IsCurrent seen =
      (r : Option (ObjectId × Principal)) × (reading (principal_revoked db.log.nodes c op.author) s
        ≡ ok false)
      × (principal_at_view db s c op.author ≡ ok r)
      × StillAuthor seen r

  -- An author who is no owner has a capability that is active at the parents and now, was given to the
  -- author by a chain of at most 64 from an owner, grants the kind, and confines every effect.
  abbrev IsAuthorized : ℕ → Type 0
  IsAuthorized depth =
      (i : ObjectId) × (cap : Capability) × (n : ℕ) × (op.cap ≡ some i)
      × (reading (in_set db.log.nodes v.caps i) s ≡ ok true)
      × (reading (in_set db.log.nodes c.caps i) s ≡ ok true)
      × (get_object db db.capability.object s i ≡ ok cap)
      × (cap.subject ≡ op.author)
      × (n ≤ 64)
      × Chain (capability_store db) s v cap n
      × ((contains ungated op.kind || contains cap.verbs op.kind) ≡ true)
      × All (EffectConfined db depth s cap v) op.effects

  author_at_parents-IsAuthor :
      (seen : ObjectId) (author : Principal)
      → author_at_parents db s v op ≡ ok (seen, author)
      → IsAuthor seen author
  unfolding author_at_parents
  author_at_parents-IsAuthor seen author e =
      let (r, p, e1) = >>=-eq-ok (principal_at_view db s v op.author) _ e in
      let (found, n, e2) = >>=-eq-ok (needed 3 r) _ e1 in
      let (a, e3) = both_pass (demand 3 (eqb found.1.status (codes "active"))) _ e2 in
      let (k, e4) = both_pass (demand 3 (has_key found.1 op.key)) _ e3 in
      let same = ok-injective e4 in
      (
        p ∙ ap ok (needed-some 3 r found n ∙ ap some same),
        subst (λ (x : ObjectId × Principal). x.1.status ≡ codes "active") same
            ((eqb_iff found.1.status (codes "active")).0 (demand-true 3 _ a)),
        subst (λ (x : ObjectId × Principal). x.1.key ≡ some op.key) same
            (has_key_sound found.1 op.key (demand-true 3 _ k)),
      )

  check_current-StillAuthor :
      (seen : ObjectId) (r : Option (ObjectId × Principal))
      → check_current db seen op r ≡ ok tt
      → StillAuthor seen r
  unfolding check_current
  check_current-StillAuthor seen none e = tt
  check_current-StillAuthor seen (some (i, p)) e =
      let (h, e1) = both_pass (demand 4 (eqb i seen || has_key p op.key)) _ e in
      (
        elim (Bool-cases (eqb i seen)) [
          | inl same ↦ inl ((eqb_iff i seen).0 same)
          | inr other ↦ inr (has_key_sound p op.key (rw other at (demand-true 4 _ h)))
        ],
        (eqb_iff p.status (codes "active")).0 (demand-true 4 _ e1),
      )

  author_now-IsCurrent : (seen : ObjectId) → author_now db s c seen op ≡ ok tt → IsCurrent seen
  unfolding author_now
  author_now-IsCurrent seen e =
      let (revoked, r, e1) =
        >>=-eq-ok (reading (principal_revoked db.log.nodes c op.author) s) _ e in
      let (n, e2) = both_pass (demand 4 (not revoked)) _ e1 in
      let (found, p, e3) = >>=-eq-ok (principal_at_view db s c op.author) _ e2 in
      (
        found,
        r ∙ ap ok (not-true revoked (demand-true 4 (not revoked) n)),
        p,
        check_current-StillAuthor seen found e3,
      )

  authorized-IsAuthorized :
      (depth : ℕ) (cap : Capability) → authorized db depth s v c op ≡ ok cap → IsAuthorized depth
  unfolding authorized
  authorized-IsAuthorized depth cap e =
      let (i, n, e1) = >>=-eq-ok (needed 6 op.cap) _ e in
      let (at_v, r, e2) = >>=-eq-ok (reading (in_set db.log.nodes v.caps i) s) _ e1 in
      let (h, e3) = both_pass (demand 6 at_v) _ e2 in
      let (at_c, q, e4) = >>=-eq-ok (reading (in_set db.log.nodes c.caps i) s) _ e3 in
      let (k, e5) = both_pass (demand 6 at_c) _ e4 in
      let (held, g, e6) = >>=-eq-ok (get_object db db.capability.object s i) _ e5 in
      let (m, e7) = both_pass (demand 6 (eqb held.subject op.author)) _ e6 in
      let (l, e8) = both_pass (check_chain (capability_store db) s v held) _ e7 in
      let (a, e9) = both_pass (check_authorizes db depth s v held op) _ e8 in
      let (length, short, chain) = (check_chain_iff (capability_store db) s v held).0 l in
      let (kind, effects) = check_authorizes-All db depth s held v op a in
      (
        i,
        held,
        length,
        needed-some 6 op.cap i n,
        r ∙ ap ok (demand-true 6 at_v h),
        q ∙ ap ok (demand-true 6 at_c k),
        g,
        (eqb_iff held.subject op.author).0 (demand-true 6 _ m),
        short,
        chain,
        kind,
        effects,
      )

  check_author-cases :
      (is_owner : Bool) (depth : ℕ)
      → check_author db is_owner depth s v c op ≡ ok tt
      → (is_owner ≡ true) ⊎ IsAuthorized depth
  unfolding check_author
  check_author-cases true depth e = inl refl
  check_author-cases false depth e =
      let (cap, h, e1) = >>=-eq-ok (authorized db depth s v c op) _ e in
      inr (authorized-IsAuthorized depth cap h)

  -- The effects, applied to the view of the parents, give the view whose ID the operation claims, and it
  -- is stored.
  abbrev pub IsProduced : View → State db → Type 0
  IsProduced produced s' =
      (e : Encoded) × (s1 : State db) × (apply db.log.nodes v op.effects (head? op.parents) s
        ≡ ok (produced, s1))
      × (db.log.put_view s1 produced ≡ s')
      × (encode db.cbor db.view db.blake3 produced ≡ ok e)
      × (e.id ≡ op.view)

  pub produce-IsProduced :
      (produced : View) (s' : State db)
      → produce db s v op ≡ ok (produced, s')
      → IsProduced produced s'
  unfolding produce
  produce-IsProduced produced s' e =
      let (q, a, e1) = >>=-eq-ok (apply db.log.nodes v op.effects (head? op.parents) s) _ e in
      let (x, b, e2) = >>=-eq-ok (encode db.cbor db.view db.blake3 q.0) _ e1 in
      let (d, e3) = both_pass (demand 8 (eqb x.id op.view)) _ e2 in
      let same = ok-injective e3 in
      (
        x,
        q.1,
        a ∙ ap (λ (y : View). ok (y, q.1)) (ap (λ (y : View × State db). y.0) same),
        ap (λ (y : View). db.log.put_view q.1 y) (sym (ap (λ (y : View × State db). y.0) same))
            ∙ ap (λ (y : View × State db). y.1) same,
        subst (λ (y : View × State db). encode db.cbor db.view db.blake3 y.0 ≡ ok x) same b,
        (eqb_iff x.id op.view).0 (demand-true 8 _ d),
      )

  module _
      (evaluate : State db
        → View
        → EntityId
        → ObjectId
        → Revision
        → List ObjectId
        → Result (List Unmet))
      (fuel : Fuel) (cache : Cache) where
    -- Every effect is legal, against what has landed.
    abbrev IsLegal : Type 0
    IsLegal =
        (landed : List ObjectId) × (cache' : Cache) × (landed_revisions db fuel.rounds cache s v
          ≡ ok (landed, cache'))
        × All (EffectLegal db s v op (contains v.owners op.author) evaluate landed) op.effects

    check_legality-IsLegal :
        check_legality db evaluate fuel cache s v op (contains v.owners op.author) ≡ ok tt → IsLegal
    unfolding check_legality
    check_legality-IsLegal e =
        let (r, l, e1) = >>=-eq-ok (landed_revisions db fuel.rounds cache s v) _ e in
        (
          r.0,
          r.1,
          l,
          legal_all-All db s v op (contains v.owners op.author) evaluate r.0 op.effects e1,
        )

    -- What holds at the views of the parents and of now.
    abbrev pub IsAccepted : View → State db → Type 0
    IsAccepted produced s' =
        (seen : ObjectId) × (author : Principal) × IsAuthor seen author
        × IsCurrent seen
        × (is_signed db db.op op op.key ≡ ok tt)
        × ((contains v.owners op.author ≡ true) ⊎ IsAuthorized fuel.depth)
        × IsLegal
        × IsProduced produced s'

    pub verify_at-IsAccepted :
        (produced : View) (s' : State db)
        → verify_at db evaluate fuel cache s v c op ≡ ok (produced, s')
        → IsAccepted produced s'
    unfolding verify_at
    verify_at-IsAccepted produced s' e =
        let (author, a, e1) = >>=-eq-ok (author_at_parents db s v op) _ e in
        let (n, e2) = both_pass (author_now db s c author.0 op) _ e1 in
        let (g, e3) = both_pass (at_step 5 (is_signed db db.op op op.key)) _ e2 in
        let (h, e4) =
          both_pass (check_author db (contains v.owners op.author) fuel.depth s v c op) _ e3 in
        let (l, e5) =
          both_pass (check_legality db evaluate fuel cache s v op (contains v.owners op.author)) _
            e4 in
        (
          author.0,
          author.1,
          author_at_parents-IsAuthor author.0 author.1 a,
          author_now-IsCurrent author.0 n,
          at_step-ok 5 (is_signed db db.op op op.key) g,
          check_author-cases (contains v.owners op.author) fuel.depth h,
          check_legality-IsLegal l,
          produce-IsProduced produced s' e5,
        )
