-- ===== src/Oplog/Standard/Clauses.antt =====
-- crates/tessra-oplog/src/standard.rs: `holds` and `check_clause`. How serde reads the predicates that an
-- argument holds, and the thousandfold of a float, are arguments.
pub mod Ends
use tessra.Prelude.{
  ℕ, zero, suc, Bool, true, false, ◌&&◌, ◌||◌, not, List, [], ◌∷◌, Bytes, codes, Option, none, some,
  if◌then◌else◌, any, all, eqb, head?, list_ord, nat_ord,
}
use tessra.Core.Result.{Result, ok, err, ◌>>=◌, Error}
use tessra.Core.Value.{Value}
use tessra.Oplog.Standard.Data.{Predicate, Clause, Unmet}
use tessra.Oplog.Standard.Context.{Ctx, or_empty}
use tessra.Oplog.Standard.Checks.{arg, holds_structural, holds_attest, holds_approved}
use tessra.Oplog.Standard.Judges.{holds_judge, holds_observe}

-- How serde reads a list of predicates, and `(f * 1000.0) as i64` on the bits of a float.
pub record Forms : Type 0 where
  pub read_predicates : Value → Option (List Predicate)
  pub permille : ℕ → ℕ

-- `iter().map(..).collect::<Result<_>>()`
unfoldable pub collect : {A B : Type 0} → (A → Result B) → List A → Result (List B)
collect f [] = ok []
collect f (x ∷ xs) = f x >>= λ y. collect f xs >>= λ ys. ok (y ∷ ys)

abbrev pub is_combined : Bytes → Bool
is_combined kind = eqb kind (codes "all") || eqb kind (codes "any") || eqb kind (codes "not")

abbrev pub negated : Option Bool → Bool
negated none = false
negated (some h) = not h

-- Of the predicates under a combination, `not` reads the first one.
unfoldable pub combined : Bytes → List Bool → Bool
combined kind results =
    if eqb kind (codes "all")
    then all (λ h. h) results
    else if eqb kind (codes "any")
    then any (λ h. h) results
    else negated (head? results)

module _ (forms : Forms) where
  abbrev pub read_some : Option Value → List Predicate
  read_some none = []
  read_some (some v) = or_empty (forms.read_predicates v)

  unfoldable pub sub_preds : Predicate → List Predicate
  unfolding arg
  sub_preds p = read_some (arg p (codes "preds"))

  -- A predicate that is no combination.
  unfoldable pub holds_simple : Ctx → Predicate → Bool
  unfolding holds_structural holds_attest holds_approved holds_judge holds_observe
  holds_simple ctx p =
      if eqb p.kind (codes "structural")
      then holds_structural ctx p.name
      else if eqb p.kind (codes "attest")
      then holds_attest ctx p
      else if eqb p.kind (codes "approved")
      then holds_approved ctx p
      else if eqb p.kind (codes "judge")
      then holds_judge forms.permille ctx p
      else if eqb p.kind (codes "observe")
      then holds_observe forms.permille ctx p
      else false

  -- `fuel` bounds the nesting.
  unfoldable pub holds : Ctx → ℕ → Predicate → Result Bool
  unfolding holds_simple sub_preds combined collect
  holds ctx zero p = err Error.stuck
  holds ctx (suc fuel) p =
      let results = collect (λ q. holds ctx fuel q) (sub_preds p) in
      if is_combined p.kind
      then (results >>= λ rs. ok (combined p.kind rs))
      else ok (holds_simple ctx p)

  abbrev pub escape : Ctx → ℕ → Option Predicate → Result Bool
  escape ctx fuel none = ok false
  escape ctx fuel (some u) = holds ctx fuel u

  unfoldable pub passes : Bytes → Bool → Bool
  passes op h =
      if eqb op (codes "require") then h else if eqb op (codes "forbid") then not h else false

  unfoldable pub judged : Ctx → ℕ → Clause → Bool → Result (Option Unmet)
  unfolding holds passes
  judged ctx fuel c true = ok none
  judged ctx fuel c false =
      holds ctx fuel c.pred >>= λ h. ok (if passes c.op h then none else some (Unmet.unmet c))

  unfoldable pub check_clause : Ctx → ℕ → Clause → Result (Option Unmet)
  unfolding judged
  check_clause ctx fuel c = escape ctx fuel c.unless >>= λ e. judged ctx fuel c e
