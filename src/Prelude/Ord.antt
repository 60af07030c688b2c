-- ===== src/Prelude/Ord.antt =====
-- Ordered types (Rust's `Ord`), with instances for numbers and, lexicographically, for lists.
use Prim.Native.Nat.{ℕ, compare, Ordering}
use Prim.Native.Nat.Ordering.{lt, eq, gt}
use mathlib.Core.Path.{◌≡◌, refl}
use mathlib.Core.Logic.{◌↔◌, ◌⊎◌}
use mathlib.Core.Bool.{Bool, true, false}
use mathlib.Core.List.{List, [], ◌∷◌}
use native.Mathlib.Omega.{arith}

-- `Ordering::reverse`
abbrev pub flip : Ordering → Ordering
flip lt = gt
flip eq = eq
flip gt = lt

-- `Ordering::then`
abbrev pub then_by : Ordering → Ordering → Ordering
then_by eq o = o
then_by lt o = lt
then_by gt o = gt

pub record Ord {ℓ} (K : Type ℓ) : Type ℓ where
  pub cmp : K → K → Ordering
  pub cmp_iff : (a b : K) → (cmp a b ≡ eq) ↔ (a ≡ b)
  pub cmp_swap : (a b : K) → cmp b a ≡ flip (cmp a b)
  pub cmp_trans : (a b c : K) → cmp a b ≡ lt → cmp b c ≡ lt → cmp a c ≡ lt

infix 50 ◌≺◌
abbrev pub ◌≺◌ {ℓ} : {K : Type ℓ} ⦃o : Ord K⦄ → K → K → Type 0
◌≺◌ ⦃o⦄ a b = o.cmp a b ≡ lt

-- `a.cmp(&b)`
abbrev pub ordering {ℓ} : {K : Type ℓ} ⦃o : Ord K⦄ → K → K → Ordering
ordering ⦃o⦄ a b = o.cmp a b

-- `a == b`
unfoldable pub eqb {ℓ} : {K : Type ℓ} ⦃o : Ord K⦄ → K → K → Bool
eqb ⦃o⦄ a b = elim (o.cmp a b) [ eq ↦ true | _ ↦ false ]

module _ {ℓ} {K : Type ℓ} ⦃o : Ord K⦄ where
  pub eqb_iff : (a b : K) → (eqb a b ≡ true) ↔ (a ≡ b)
  unfolding eqb
  eqb_iff a b = ground (arith, o.cmp_iff a b)

  pub eqb_refl : (a : K) → eqb a a ≡ true
  eqb_refl a = (eqb_iff a a).1 refl

  pub eqb_comm : (a b : K) → eqb a b ≡ eqb b a
  unfolding eqb
  eqb_comm a b = ground (arith, o.cmp_swap a b)

  -- Trichotomy, as values to split on.
  pub ≺_cases : (a b : K) → (a ≺ b) ⊎ (a ≡ b) ⊎ (b ≺ a)
  ≺_cases a b = ground (arith, o.cmp_iff a b, o.cmp_swap a b)

  pub ≺_irrefl : (a : K) → ¬ (a ≺ a)
  ≺_irrefl a = λ h. ground (arith, o.cmp_iff a a)

  pub cmp_refl : (a : K) → o.cmp a a ≡ eq
  cmp_refl a = (o.cmp_iff a a).1 refl

  pub eqb-≺ : (a b : K) → a ≺ b → eqb a b ≡ false
  unfolding eqb
  eqb-≺ a b h = ground arith

  pub eqb-≻ : (a b : K) → a ≺ b → eqb b a ≡ false
  unfolding eqb
  eqb-≻ a b h = ground (arith, o.cmp_swap a b)

pub nat_cmp_iff : (a b : ℕ) → (compare a b ≡ eq) ↔ (a ≡ b)
nat_cmp_iff a b = ground arith

pub nat_cmp_swap : (a b : ℕ) → compare b a ≡ flip (compare a b)
nat_cmp_swap a b = ground arith

pub nat_cmp_trans : (a b c : ℕ) → compare a b ≡ lt → compare b c ≡ lt → compare a c ≡ lt
nat_cmp_trans a b c h k = ground arith

instance abbrev pub nat_ord : Ord ℕ
nat_ord = record {
  cmp = compare;
  cmp_iff = nat_cmp_iff;
  cmp_swap = nat_cmp_swap;
  cmp_trans = nat_cmp_trans;
}

module _ {ℓ} {A : Type ℓ} ⦃o : Ord A⦄ where
  abbrev pub list_cmp : List A → List A → Ordering
  list_cmp [] [] = eq
  list_cmp [] (y ∷ ys) = lt
  list_cmp (x ∷ xs) [] = gt
  list_cmp (x ∷ xs) (y ∷ ys) = then_by (o.cmp x y) (list_cmp xs ys)

module _ {ℓ} {A : Type ℓ} ⦃o : Ord A⦄ where
  list_cmp→eq : (a b : List A) → list_cmp a b ≡ eq → a ≡ b
  list_cmp→eq [] [] h = refl
  list_cmp→eq [] (y ∷ b) h = ground arith
  list_cmp→eq (x ∷ a) [] h = ground arith
  list_cmp→eq (x ∷ a) (y ∷ b) h = ground (arith, o.cmp_iff x y, list_cmp→eq a b)

  list_cmp_refl : (a : List A) → list_cmp a a ≡ eq
  list_cmp_refl [] = refl
  list_cmp_refl (x ∷ a) = ground (arith, o.cmp_iff x x, list_cmp_refl a)

  pub list_cmp_iff : (a b : List A) → (list_cmp a b ≡ eq) ↔ (a ≡ b)
  list_cmp_iff a b = (list_cmp→eq a b, λ e. rw e (list_cmp_refl b))

  pub list_cmp_swap : (a b : List A) → list_cmp b a ≡ flip (list_cmp a b)
  list_cmp_swap [] [] = refl
  list_cmp_swap [] (y ∷ b) = refl
  list_cmp_swap (x ∷ a) [] = refl
  list_cmp_swap (x ∷ a) (y ∷ b) = ground (arith, o.cmp_swap x y, list_cmp_swap a b)

  pub list_cmp_trans : (a b c : List A) → list_cmp a b ≡ lt → list_cmp b c ≡ lt → list_cmp a c ≡ lt
  list_cmp_trans [] [] c h k = ground arith
  list_cmp_trans [] (y ∷ b) [] h k = ground arith
  list_cmp_trans [] (y ∷ b) (z ∷ c) h k = refl
  list_cmp_trans (x ∷ a) [] c h k = ground arith
  list_cmp_trans (x ∷ a) (y ∷ b) [] h k = ground arith
  list_cmp_trans (x ∷ a) (y ∷ b) (z ∷ c) h k =
      ground (
        arith,
        o.cmp_iff x y,
        o.cmp_iff y z,
        o.cmp_iff x z,
        o.cmp_trans x y z,
        list_cmp_trans a b c,
      )

  instance abbrev pub list_ord : Ord (List A)
  list_ord = record {
    cmp = list_cmp;
    cmp_iff = list_cmp_iff;
    cmp_swap = list_cmp_swap;
    cmp_trans = list_cmp_trans;
  }

module _ {ℓ} {K : Type ℓ} ⦃o : Ord K⦄ where
  -- `a.min(b)`
  unfoldable pub lower : K → K → K
  lower a b = elim (o.cmp a b) [ gt ↦ b | _ ↦ a ]

  pub lower_comm : (a b : K) → lower a b ≡ lower b a
  unfolding lower
  lower_comm a b = ground (arith, o.cmp_swap a b, o.cmp_iff a b)

-- Pairs, lexicographically.
module _ {ℓ κ} {A : Type ℓ} {B : Type κ} ⦃o : Ord A⦄ ⦃p : Ord B⦄ where
  abbrev pub pair_cmp : A × B → A × B → Ordering
  pair_cmp x y = then_by (o.cmp x.0 y.0) (p.cmp x.1 y.1)

  pub pair_cmp_iff : (x y : A × B) → (pair_cmp x y ≡ eq) ↔ (x ≡ y)
  pair_cmp_iff (a, b) (c, d) = ground (arith, o.cmp_iff a c, p.cmp_iff b d)

  pub pair_cmp_swap : (x y : A × B) → pair_cmp y x ≡ flip (pair_cmp x y)
  pair_cmp_swap (a, b) (c, d) = ground (arith, o.cmp_swap a c, p.cmp_swap b d)

  pub pair_cmp_trans : (x y z : A × B) → pair_cmp x y ≡ lt → pair_cmp y z ≡ lt → pair_cmp x z ≡ lt
  pair_cmp_trans (a, b) (c, d) (e, f) h k =
      ground
        (arith, o.cmp_iff a c, o.cmp_iff c e, o.cmp_iff a e, o.cmp_trans a c e, p.cmp_trans b d f)

  instance abbrev pub pair_ord : Ord (A × B)
  pair_ord = record {
    cmp = pair_cmp;
    cmp_iff = pair_cmp_iff;
    cmp_swap = pair_cmp_swap;
    cmp_trans = pair_cmp_trans;
  }
