-- ===== src/Oplog/Standard/Judges/Votes.antt =====
-- What the loop over the judges of a `judge` predicate keeps.
use tessra.Prelude.{
  ℕ, ◌≡◌, refl, ◌∙◌, subst, arith, Bool, true, false, ◌||◌, List, [], ◌∷◌, ◌++◌, Bytes, All,
  All-append, Option, ltb, any, eqb, eqb_iff, eqb_refl, Bool-cases, inl, inr, ◌⊎◌, list_ord,
  nat_ord,
}
use tessra.Core.Id.{EntityId}
use tessra.Oplog.Standard.Context.{Ctx, Loaded, truthy}
use tessra.Oplog.Standard.Checks.Trust.{Some}
use tessra.Oplog.Standard.Judges.{
  same_parent, judge_key, Tally, has_judge, add_judge, judge_result, count_verdict, tally,
}

abbrev pub Judge : Type 0
Judge = EntityId × Option Bytes

-- No agent stands twice.
abbrev pub IsDistinct : List Judge → Type 0
IsDistinct [] = Unit {0}
IsDistinct (j ∷ js) = (has_judge j.0 js ≡ false) × IsDistinct js

has_judge-append :
    (key : EntityId) (xs ys : List Judge)
    → has_judge key (xs ++ ys) ≡ (has_judge key xs || has_judge key ys)
unfolding any
has_judge-append key [] ys = refl
has_judge-append key (x ∷ xs) ys = ground (arith, has_judge-append key xs ys)

IsDistinct-append :
    (xs : List Judge) (j : Judge)
    → IsDistinct xs
    → has_judge j.0 xs ≡ false
    → IsDistinct (xs ++ (j ∷ []))
unfolding any eqb
IsDistinct-append [] j h k = (refl, tt)
IsDistinct-append (x ∷ xs) j (h, hs) k =
    let (other, rest) = parts (eqb x.0 j.0) (has_judge j.0 xs) k in
    (
      has_judge-append x.0 xs (j ∷ []) ∙ rw (h, flip x.0 j.0 other) refl,
      IsDistinct-append xs j hs rest,
    )
  where
    parts : (a b : Bool) → (a || b) ≡ false → (a ≡ false) × (b ≡ false)
    parts a b h = ground arith

    flip : (a b : EntityId) → eqb a b ≡ false → eqb b a ≡ false
    flip a b h = elim (Bool-cases (eqb b a)) [
      | inr n ↦ n
      | inl e ↦ absurd (contra a (subst (λ x. eqb a x ≡ false) ((eqb_iff b a).0 e) h))
    ]
      where
        contra : (a : EntityId) → eqb a a ≡ false → ⊥
        contra a h = absurd (apart (rw (eqb_refl a) at h))
          where
            apart : true ≡ false → ⊥
            apart e = cc

module _ (permille : ℕ → ℕ) (ctx : Ctx) (min_conf : ℕ) where
  -- A judge whose verdict counts: not of the author's agent, and sure enough.
  abbrev pub IsCounted : Loaded → Type 0
  IsCounted l =
      (same_parent l.signer_parent ctx.author_parent ≡ false)
      × (ltb (judge_result permille l.att.result) min_conf ≡ false)

  -- The agent of a verdict that counts and agrees.
  abbrev pub Agrees : List Loaded → Judge → Type 0
  Agrees ls j = Some (λ l. IsCounted l × (truthy l.att.result ≡ true) × (judge_key l ≡ j.0)) ls

  -- Every verdict that counts agrees.
  abbrev NoneAgainst : List Loaded → Type 0
  NoneAgainst ls = All (λ l. IsCounted l → truthy l.att.result ≡ true) ls

  add_judge-IsDistinct :
      (l : Loaded) (js : List Judge) → IsDistinct js → IsDistinct (add_judge l js)
  unfolding add_judge
  add_judge-IsDistinct l js h = elim (Bool-cases (has_judge (judge_key l) js)) [
    | inl y ↦ rw y h
    | inr n ↦ rw n (IsDistinct-append js (judge_key l, l.signer_model) h n)
  ]

  add_judge-All :
      (P : Judge → Type 0) (l : Loaded) (js : List Judge)
      → All P js
      → P (judge_key l, l.signer_model)
      → All P (add_judge l js)
  unfolding add_judge
  add_judge-All P l js h k = elim (Bool-cases (has_judge (judge_key l) js)) [
    | inl y ↦ rw y h
    | inr n ↦ rw n (All-append P js ((judge_key l, l.signer_model) ∷ []) h (k, tt))
  ]

  -- What a round does.
  count_verdict-cases :
      (t : Tally) (l : Loaded)
      → ((count_verdict permille ctx min_conf t l ≡ t) × (IsCounted l → ⊥))
        ⊎ (IsCounted l
            × (truthy l.att.result ≡ true)
            × (count_verdict permille ctx min_conf t l
                ≡ record t { agreed = add_judge l t.agreed }))
        ⊎ ((truthy l.att.result ≡ false)
            × (count_verdict permille ctx min_conf t l ≡ record t { disagreed = true }))
  unfolding count_verdict
  count_verdict-cases t l =
      let own = same_parent l.signer_parent ctx.author_parent in
      let low = ltb (judge_result permille l.att.result) min_conf in
      elim (Bool-cases (own || low)) [
        | inl out ↦ inl (rw out refl, λ c. not_both own low out c.0 c.1)
        | inr kept ↦ elim (Bool-cases (truthy l.att.result)) [
          | inl y ↦ inr (inl (neither own low kept, y, rw (kept, y) refl))
          | inr n ↦ inr (inr (n, rw (kept, n) refl))
        ]
      ]
    where
      not_both : (x y : Bool) → (x || y) ≡ true → x ≡ false → y ≡ false → ⊥
      not_both x y h a b = ground arith

      neither : (x y : Bool) → (x || y) ≡ false → (x ≡ false) × (y ≡ false)
      neither x y h = ground arith

  pub tally-IsDistinct :
      (t : Tally) (ls : List Loaded)
      → IsDistinct t.agreed
      → IsDistinct (tally permille ctx min_conf t ls).agreed
  unfolding tally
  tally-IsDistinct t [] h = h
  tally-IsDistinct t (l ∷ ls) h =
      tally-IsDistinct (count_verdict permille ctx min_conf t l) ls
        (elim (count_verdict-cases t l) [
          | inl (e, c) ↦ rw e h
          | inr (inl (c, y, e)) ↦ rw e (add_judge-IsDistinct l t.agreed h)
          | inr (inr (n, e)) ↦ rw e h
        ])

  pub tally-All :
      (P : Judge → Type 0) (t : Tally) (ls : List Loaded)
      → All P t.agreed
      → All (λ l. IsCounted l → truthy l.att.result ≡ true → P (judge_key l, l.signer_model)) ls
      → All P (tally permille ctx min_conf t ls).agreed
  unfolding tally
  tally-All P t [] h k = h
  tally-All P t (l ∷ ls) h (k, ks) =
      tally-All P (count_verdict permille ctx min_conf t l) ls
        (elim (count_verdict-cases t l) [
          | inl (e, c) ↦ rw e h
          | inr (inl (c, y, e)) ↦ rw e (add_judge-All P l t.agreed h (k c y))
          | inr (inr (n, e)) ↦ rw e h
        ])
        ks

  pub tally-NoneAgainst :
      (t : Tally) (ls : List Loaded)
      → (tally permille ctx min_conf t ls).disagreed ≡ false
      → (t.disagreed ≡ false) × NoneAgainst ls
  unfolding tally
  tally-NoneAgainst t [] h = (h, tt)
  tally-NoneAgainst t (l ∷ ls) h =
      let (now, later) = tally-NoneAgainst (count_verdict permille ctx min_conf t l) ls h in
      elim (count_verdict-cases t l) [
        | inl (e, c) ↦ (rw e at now, (λ counted. absurd (c counted), later))
        | inr (inl (c, y, e)) ↦ (rw e at now, (λ counted. y, later))
        | inr (inr (n, e)) ↦ absurd (contra (rw e at now))
      ]
    where
      contra : true ≡ false → ⊥
      contra h = cc
