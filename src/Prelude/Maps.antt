-- ===== src/Prelude/Maps.antt =====
-- `BTreeMap` and `HashMap`: association lists, read through `lookup`.
use mathlib.Core.Path.{◌≡◌, refl}
use mathlib.Core.List.{List, [], ◌∷◌}
use mathlib.Core.Option.{Option, none, some}
use mathlib.Core.Logic.{inl, inr}
use native.Mathlib.Omega.{arith}
use tessra.Prelude.Tests.{if◌then◌else◌, Bool-cases, is_some}
use tessra.Prelude.Ord.{Ord, eqb, eqb_iff, eqb_refl}
use tessra.Prelude.Sets.{contains}

module _ {ℓ κ} {K : Type ℓ} {V : Type κ} ⦃o : Ord K⦄ where
  unfoldable pub lookup : K → List (K × V) → Option V
  lookup k [] = none
  lookup k ((j, v) ∷ m) = if eqb j k then some v else lookup k m

  unfoldable pub put : K → V → List (K × V) → List (K × V)
  put k v [] = (k, v) ∷ []
  put k v ((j, w) ∷ m) = if eqb j k then (k, v) ∷ m else (j, w) ∷ put k v m

  unfoldable pub keys : List (K × V) → List K
  keys [] = []
  keys ((j, w) ∷ m) = j ∷ keys m

  -- A loop over keys that inserts what `f` returns for each.
  unfoldable pub collect : List K → (K → Option V) → List (K × V)
  collect [] f = []
  collect (k ∷ ks) f = elim (f k) [ none ↦ collect ks f | some v ↦ (k, v) ∷ collect ks f ]

module _ {ℓ κ} {K : Type ℓ} {V : Type κ} ⦃o : Ord K⦄ where
  pub lookup-put :
      (k : K) (v : V) (m : List (K × V)) (j : K)
      → lookup j (put k v m) ≡ (if eqb k j then some v else lookup j m)
  unfolding lookup put
  lookup-put k v [] j = refl
  lookup-put k v ((i, w) ∷ m) j =
      ground (arith, eqb_iff k j, eqb_iff i k, eqb_iff i j, lookup-put k v m j)

  pub contains-keys : (m : List (K × V)) (k : K) → contains (keys m) k ≡ is_some (lookup k m)
  unfolding contains keys lookup
  contains-keys [] k = refl
  contains-keys ((j, w) ∷ m) k = ground (arith, contains-keys m k)

  pub lookup-collect :
      (ks : List K) (f : K → Option V) (j : K)
      → lookup j (collect ks f) ≡ (if contains ks j then f j else none)
  unfolding lookup collect contains
  lookup-collect [] f j = refl
  lookup-collect (k ∷ ks) f j = elim (Bool-cases (eqb k j)) [
    | inl e ↦ rw ((eqb_iff k j).0 e) (ground (arith, eqb_refl j, lookup-collect ks f j))
    | inr n ↦ ground (arith, lookup-collect ks f j)
  ]
