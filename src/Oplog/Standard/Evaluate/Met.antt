-- ===== src/Oplog/Standard/Evaluate/Met.antt =====
-- What a standard that `evaluate` finds no fault with says of the revision.
use tessra.Prelude.{
  ℕ, zero, suc, ◌≤◌, ◌≡◌, refl, sym, ap, ◌∙◌, subst, arith, Bool, true, false, not, List, [], ◌∷◌,
  ◌++◌, Bytes, codes, All, Option, none, some, if◌then◌else◌, leb, eqb, eqb_iff, length, Bool-cases,
  inl, inr, ◌⊎◌, list_ord, nat_ord,
}
use tessra.Core.Result.{ok, >>=-eq-ok, ok-injective}
use tessra.Core.Id.{EntityId, ObjectId}
use tessra.Oplog.View.Pointer.{Pointer}
use tessra.Oplog.View.Data.{View}
use tessra.Oplog.View.Merge.{entity}
use tessra.Oplog.Capability.{reading}
use tessra.Oplog.Verify.Objects.{Objects, State, Revision}
use tessra.Oplog.Standard.Data.{Predicate, Clause, RiskClauses, Standard, Unmet}
use tessra.Oplog.Standard.Context.{Ctx, or_empty, risk, level_rank}
use tessra.Oplog.Standard.Clauses.{Forms, holds, escape, passes, judged, check_clause}
use tessra.Oplog.Standard.Evaluate.{
  push_unmet, at_level, check_clauses, check_at_level, check_risk, check_risks, check_standard,
  check_chain_of, standard_at, chain_loop, chain, context, evaluate,
}

none_pushed : (u : Option Unmet) (us : List Unmet) → push_unmet u us ≡ [] → (u ≡ none) × (us ≡ [])
none_pushed none us h = (refl, h)
none_pushed (some u) us h = cc

both_empty : {A : Type 0} (xs ys : List A) → xs ++ ys ≡ [] → (xs ≡ []) × (ys ≡ [])
both_empty [] ys h = (refl, h)
both_empty (x ∷ xs) ys h = cc

none-at_level : (level : Bytes) (u : Option Unmet) → at_level level u ≡ none → u ≡ none
none-at_level level none h = refl
none-at_level level (some (Unmet.unmet c)) h = cc
none-at_level level (some (Unmet.unmet_at l c)) h = cc
none-at_level level (some (Unmet.unknown_risk l)) h = cc

abbrev fault : Bool → Clause → Option Unmet
fault passed c = if passed then none else some (Unmet.unmet c)

no_fault : (passed : Bool) (c : Clause) → ok (fault passed c) ≡ ok none → passed ≡ true
no_fault true c h = refl
no_fault false c h = cc

module _ (forms : Forms) (depth : ℕ) (ctx : Ctx) where
  abbrev Escapes : Option Predicate → Type 0
  Escapes none = ⊥
  Escapes (some u) = holds forms ctx depth u ≡ ok true

  -- The escape of the clause holds, or its predicate does and it requires it, or its predicate does not
  -- and it forbids it.
  abbrev ClauseMet : Clause → Type 0
  ClauseMet c =
      Escapes c.unless
      ⊎ ((c.op ≡ codes "require") × (holds forms ctx depth c.pred ≡ ok true))
      ⊎ ((c.op ≡ codes "forbid") × (holds forms ctx depth c.pred ≡ ok false))

  check_clause-ClauseMet : (c : Clause) → check_clause forms ctx depth c ≡ ok none → ClauseMet c
  unfolding check_clause judged passes
  check_clause-ClauseMet c e =
      let (b, f, e1) = >>=-eq-ok (escape forms ctx depth c.unless) _ e in by_escape b f e1
    where
      escaped : (o : Option Predicate) → escape forms ctx depth o ≡ ok true → Escapes o
      escaped none h = cc
      escaped (some u) h = h

      by_op :
          (h : Bool)
          → holds forms ctx depth c.pred ≡ ok h
          → passes forms c.op h ≡ true
          → ((c.op ≡ codes "require") × (holds forms ctx depth c.pred ≡ ok true))
            ⊎ ((c.op ≡ codes "forbid") × (holds forms ctx depth c.pred ≡ ok false))
      by_op h e k = elim (Bool-cases (eqb c.op (codes "require"))) [
        | inl r ↦ inl ((eqb_iff c.op (codes "require")).0 r, e ∙ ap ok (rw r at k))
        | inr nr ↦ elim (Bool-cases (eqb c.op (codes "forbid"))) [
          | inl f ↦
              inr ((eqb_iff c.op (codes "forbid")).0 f, e ∙ ap ok (negation h (rw (nr, f) at k)))
          | inr nf ↦ absurd (contra (rw (nr, nf) at k))
        ]
      ]
        where
          negation : (h : Bool) → not h ≡ true → h ≡ false
          negation h k = ground arith

          contra : false ≡ true → ⊥
          contra k = cc

      by_escape :
          (b : Bool)
          → escape forms ctx depth c.unless ≡ ok b
          → judged forms ctx depth c b ≡ ok none
          → ClauseMet c
      by_escape true f h = inl (escaped c.unless f)
      by_escape false f h =
          let (t, e1, e2) = >>=-eq-ok (holds forms ctx depth c.pred) _ h in
          inr (by_op t e1 (no_fault (passes forms c.op t) c e2))

  check_clauses-All :
      (cs : List Clause) → check_clauses forms depth ctx cs ≡ ok [] → All ClauseMet cs
  unfolding check_clauses
  check_clauses-All [] e = tt
  check_clauses-All (c ∷ cs) e =
      let (u, f, e1) = >>=-eq-ok (check_clause forms ctx depth c) _ e in
      let (us, g, e2) = >>=-eq-ok (check_clauses forms depth ctx cs) _ e1 in
      let (a, b) = none_pushed u us (ok-injective e2) in
      (check_clause-ClauseMet c (f ∙ ap ok a), check_clauses-All cs (g ∙ ap ok b))

  check_at_level-All :
      (level : Bytes) (cs : List Clause)
      → check_at_level forms depth ctx level cs ≡ ok []
      → All ClauseMet cs
  unfolding check_at_level
  check_at_level-All level [] e = tt
  check_at_level-All level (c ∷ cs) e =
      let (u, f, e1) = >>=-eq-ok (check_clause forms ctx depth c) _ e in
      let (us, g, e2) = >>=-eq-ok (check_at_level forms depth ctx level cs) _ e1 in
      let (a, b) = none_pushed (at_level level u) us (ok-injective e2) in
      (
        check_clause-ClauseMet c (f ∙ ap ok (none-at_level level u a)),
        check_at_level-All level cs (g ∙ ap ok b),
      )

  -- The risk of the revision is attested, and from the level on every clause is met.
  abbrev RiskMet : RiskClauses → Type 0
  RiskMet w =
      (level : Bytes) × (risk ctx ≡ some level)
      × (leb (level_rank w.risk_at_least) (level_rank level) ≡ true → All ClauseMet w.clauses)

  check_risk-RiskMet :
      (w : RiskClauses) (r : Option Bytes)
      → risk ctx ≡ r
      → check_risk forms depth ctx r w ≡ ok []
      → RiskMet w
  unfolding check_risk
  check_risk-RiskMet w none h e = cc
  check_risk-RiskMet w (some level) h e =
      (level, h, λ k. check_at_level-All w.risk_at_least w.clauses (rw k at e))

  check_risks-All :
      (ws : List RiskClauses) → check_risks forms depth ctx ws ≡ ok [] → All RiskMet ws
  unfolding check_risks
  check_risks-All [] e = tt
  check_risks-All (w ∷ ws) e =
      let (us, f, e1) = >>=-eq-ok (check_risk forms depth ctx (risk ctx) w) _ e in
      let (more, g, e2) = >>=-eq-ok (check_risks forms depth ctx ws) _ e1 in
      let (a, b) = both_empty us more (ok-injective e2) in
      (check_risk-RiskMet w (risk ctx) refl (f ∙ ap ok a), check_risks-All ws (g ∙ ap ok b))

  abbrev pub StandardMet : Standard → Type 0
  StandardMet st = All ClauseMet st.clauses × All RiskMet (or_empty st.risk_clauses)

  check_chain_of-All :
      (sts : List Standard) → check_chain_of forms depth ctx sts ≡ ok [] → All StandardMet sts
  unfolding check_chain_of check_standard
  check_chain_of-All [] e = tt
  check_chain_of-All (st ∷ sts) e =
      let (us, f, e1) = >>=-eq-ok (check_standard forms depth ctx st) _ e in
      let (more, g, e2) = >>=-eq-ok (check_chain_of forms depth ctx sts) _ e1 in
      let (a, b) = both_empty us more (ok-injective e2) in
      let (cs, h, f1) = >>=-eq-ok (check_clauses forms depth ctx st.clauses) _ (f ∙ ap ok a) in
      let (ws, k, f2) = >>=-eq-ok (check_risks forms depth ctx (or_empty st.risk_clauses)) _ f1 in
      let (x, y) = both_empty cs ws (ok-injective f2) in
      (
        (check_clauses-All st.clauses (h ∙ ap ok x), check_risks-All _ (k ∙ ap ok y)),
        check_chain_of-All sts (g ∙ ap ok b),
      )

-- `chain.reverse()`, in front of a list.
abbrev rev_append {ℓ} : {A : Type ℓ} → List A → List A → List A
rev_append [] acc = acc
rev_append (x ∷ xs) acc = rev_append xs (x ∷ acc)

All-rev_append :
    (P : Standard → Type 0) (xs acc : List Standard)
    → All P (rev_append xs acc)
    → All P xs × All P acc
All-rev_append P [] acc h = (tt, h)
All-rev_append P (x ∷ xs) acc h = let (a, (b, c)) = All-rev_append P xs (x ∷ acc) h in ((b, a), c)

module _ (db : Objects) (s : State db) (v : View) where
  -- The standards from an entity on, each of which extends the next.
  abbrev pub Extends : Option EntityId → List Standard → Type 0
  Extends none [] = Unit {0}
  Extends none (st ∷ sts) = ⊥
  Extends (some id) [] = ⊥
  Extends (some id) (st ∷ sts) =
      (p : Option Pointer) × (reading (entity db.log.nodes v id) s ≡ ok p)
      × (standard_at db p s ≡ ok st)
      × Extends st.extends sts

  chain_loop-Extends :
      (guard : ℕ) (cur : Option EntityId) (acc out : List Standard)
      → chain_loop db guard s v cur acc ≡ ok out
      → (sts : List Standard) × Extends cur sts × (length sts ≤ guard) × (out ≡ rev_append sts acc)
  unfolding chain_loop
  chain_loop-Extends guard none acc out e = ([], tt, omega arith, sym (ok-injective e))
  chain_loop-Extends zero (some id) acc out e = cc
  chain_loop-Extends (suc guard) (some id) acc out e =
      let (p, f, e1) = >>=-eq-ok (reading (entity db.log.nodes v id) s) _ e in
      let (st, g, e2) = >>=-eq-ok (standard_at db p s) _ e1 in
      let (sts, h, n, o) = chain_loop-Extends guard st.extends (st ∷ acc) out e2 in
      (st ∷ sts, (p, f, g, h), omega arith, o)

  -- Where `evaluate` finds nothing unmet, the standard and what it extends, at most 32 in all, are met:
  -- every clause holds or its escape does, and of those from a level of risk up the risk is attested and
  -- below the level or the clauses hold.
  pub evaluate-StandardMet :
      (forms : Forms) (depth : ℕ) (standard : EntityId) (id : ObjectId) (rev : Revision)
      (attests : List ObjectId)
      → evaluate db forms depth s v standard id rev attests ≡ ok []
      → (sts : List Standard) × (ctx : Ctx) × Extends (some standard) sts
        × (length sts ≤ 32)
        × (context db s v id rev attests ≡ ok ctx)
        × All (StandardMet forms depth ctx) sts
  unfolding evaluate chain
  evaluate-StandardMet forms depth standard id rev attests e =
      let (out, f, e1) = >>=-eq-ok (chain db s v standard) _ e in
      let (ctx, g, e2) = >>=-eq-ok (context db s v id rev attests) _ e1 in
      let (sts, h, n, o) = chain_loop-Extends 32 (some standard) [] out f in
      let met = check_chain_of-All forms depth ctx out e2 in
      (
        sts,
        ctx,
        h,
        n,
        g,
        (All-rev_append (StandardMet forms depth ctx) sts []
            (subst (λ l. All (StandardMet forms depth ctx) l) o met)).0,
      )
