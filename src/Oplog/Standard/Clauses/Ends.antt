-- ===== src/Oplog/Standard/Clauses/Ends.antt =====
-- The evaluation of a clause ends, in as many rounds as its predicates are nested.
use tessra.Prelude.{
  ℕ, zero, suc, ◌<◌, ◌≡◌, refl, arith, Bool, true, false, List, [], ◌∷◌, All, All-imp, Option, none,
  some, Bool-cases, inl, inr,
}
use tessra.Core.Result.{Result, ok}
use tessra.Oplog.Standard.Data.{Predicate, Clause, Unmet}
use tessra.Oplog.Standard.Context.{Ctx}
use tessra.Oplog.Standard.Clauses.{
  Forms, collect, is_combined, sub_preds, holds, escape, judged, check_clause,
}

collect-ok :
    {A B : Type 0} (f : A → Result B) (xs : List A)
    → All (λ x. (b : B) × (f x ≡ ok b)) xs
    → (bs : List B) × (collect f xs ≡ ok bs)
unfolding collect
collect-ok f [] all = ([], refl)
collect-ok f (x ∷ xs) ((b, e), all) =
    let (bs, es) = collect-ok f xs all in (b ∷ bs, rw (e, es) refl)

module _ (forms : Forms) (rank : Predicate → ℕ) where
  -- What serde reads from the arguments of a predicate is nested less deep than it.
  abbrev pub IsNested : Type 0
  IsNested = (p : Predicate) → All (λ q. rank q < rank p) (sub_preds forms p)

  abbrev Answers : Ctx → ℕ → Predicate → Type 0
  Answers ctx fuel p = (h : Bool) × (holds forms ctx fuel p ≡ ok h)

  holds-Answers :
      (ctx : Ctx) → IsNested → (fuel : ℕ) (p : Predicate) → rank p < fuel → Answers ctx fuel p
  unfolding holds
  holds-Answers ctx nested zero p h = absurd (omega arith)
  holds-Answers ctx nested (suc fuel) p h =
      let (rs, e) =
        collect-ok (λ q. holds forms ctx fuel q) (sub_preds forms p)
          (All-imp (λ q small. holds-Answers ctx nested fuel q (omega arith)) (sub_preds forms p)
            (nested p)) in
      elim (Bool-cases (is_combined p.kind)) [
        | inl c ↦ rw (c, e) (_, refl)
        | inr c ↦ rw c (_, refl)
      ]

  abbrev Shallow : ℕ → Option Predicate → Type 0
  Shallow fuel none = Unit {0}
  Shallow fuel (some u) = rank u < fuel

  -- A clause whose predicates are nested less deep than the fuel has an answer.
  pub check_clause-ends :
      (ctx : Ctx) (fuel : ℕ) (c : Clause)
      → IsNested
      → rank c.pred < fuel
      → Shallow fuel c.unless
      → (u : Option Unmet) × (check_clause forms ctx fuel c ≡ ok u)
  unfolding check_clause judged
  check_clause-ends ctx fuel c nested small shallow =
      let (e, f) = escapes c.unless shallow in let (u, g) = judges e in (u, rw f g)
    where
      escapes :
          (o : Option Predicate) → Shallow fuel o → (b : Bool) × (escape forms ctx fuel o ≡ ok b)
      escapes none h = (false, refl)
      escapes (some u) h = holds-Answers ctx nested fuel u h

      judges : (e : Bool) → (u : Option Unmet) × (judged forms ctx fuel c e ≡ ok u)
      judges true = (none, refl)
      judges false = let (h, f) = holds-Answers ctx nested fuel c.pred small in rw f (_, refl)
