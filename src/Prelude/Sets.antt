-- ===== src/Prelude/Sets.antt =====
-- `BTreeSet`: lists in strictly ascending order, and the slice and set tests of `contains`.
use Prim.Native.Nat.Ordering.{lt, eq, gt}
use mathlib.Core.Path.{◌≡◌, refl, ap₂, sym, ◌∙◌}
use mathlib.Core.Logic.{inl, inr}
use mathlib.Core.Bool.{Bool, false, ◌||◌}
use mathlib.Core.List.{List, [], ◌∷◌, ◌++◌}
use native.Mathlib.Omega.{arith}
use tessra.Prelude.Tests.{Bool-cases, if◌then◌else◌}
use tessra.Prelude.Lists.{All, All-imp, filter}
use tessra.Prelude.Ord.{Ord, ◌≺◌, eqb, eqb_iff, eqb_refl, ≺_cases, eqb-≻}

module _ {ℓ} {K : Type ℓ} ⦃o : Ord K⦄ where
  unfoldable pub contains : List K → K → Bool
  contains [] a = false
  contains (x ∷ xs) a = eqb x a || contains xs a

  abbrev pub Above : K → List K → Type 0
  Above a xs = All (λ y. a ≺ y) xs

  abbrev pub IsSorted : List K → Type 0
  IsSorted [] = Unit
  IsSorted (x ∷ xs) = Above x xs × IsSorted xs

  -- `BTreeSet::insert`
  unfoldable pub insert : K → List K → List K
  insert a [] = a ∷ []
  insert a (x ∷ xs) =
      let rest = x ∷ insert a xs in elim (o.cmp a x) [ lt ↦ a ∷ x ∷ xs | eq ↦ x ∷ xs | gt ↦ rest ]

  -- `collect` into a `BTreeSet`
  unfoldable pub from_list : List K → List K
  from_list [] = []
  from_list (x ∷ xs) = insert x (from_list xs)

  -- `BTreeSet::remove` and `retain(|x| x != a)`
  unfoldable pub remove : K → List K → List K
  remove a [] = []
  remove a (x ∷ xs) = if eqb x a then remove a xs else x ∷ remove a xs

module _ {ℓ} {K : Type ℓ} ⦃o : Ord K⦄ where
  pub contains-insert :
      (a : K) (xs : List K) (b : K) → contains (insert a xs) b ≡ (eqb a b || contains xs b)
  unfolding contains insert
  contains-insert a [] b = refl
  contains-insert a (x ∷ xs) b = ground (arith, o.cmp_iff a x, contains-insert a xs b)

  pub contains-from_list : (xs : List K) (b : K) → contains (from_list xs) b ≡ contains xs b
  unfolding contains from_list
  contains-from_list [] b = refl
  contains-from_list (x ∷ xs) b = contains-insert x (from_list xs) b ∙ rw (contains-from_list xs b)

  pub contains-append :
      (xs ys : List K) (b : K) → contains (xs ++ ys) b ≡ (contains xs b || contains ys b)
  unfolding contains
  contains-append [] ys b = refl
  contains-append (x ∷ xs) ys b = ground (arith, contains-append xs ys b)

  pub contains-remove :
      (a : K) (xs : List K) (b : K)
      → contains (remove a xs) b ≡ (if eqb a b then false else contains xs b)
  unfolding contains remove
  contains-remove a [] b = ground arith
  contains-remove a (x ∷ xs) b =
      ground (arith, eqb_iff x a, eqb_iff a b, eqb_iff x b, contains-remove a xs b)

  Above-insert : (b a : K) (xs : List K) → b ≺ a → Above b xs → Above b (insert a xs)
  unfolding insert
  Above-insert b a [] h hs = (h, tt)
  Above-insert b a (x ∷ xs) h hs = ground (arith, Above-insert b a xs)

  pub Above-trans : (a b : K) (xs : List K) → a ≺ b → Above b xs → Above a xs
  Above-trans a b xs h = All-imp (λ y. o.cmp_trans a b y h) xs

  pub insert-IsSorted : (a : K) (xs : List K) → IsSorted xs → IsSorted (insert a xs)
  unfolding insert
  insert-IsSorted a [] h = (tt, tt)
  insert-IsSorted a (x ∷ xs) h =
      ground (arith, o.cmp_swap a x, insert-IsSorted a xs, Above-insert x a xs, Above-trans a x xs)

  pub from_list-IsSorted : (xs : List K) → IsSorted (from_list xs)
  unfolding from_list
  from_list-IsSorted [] = tt
  from_list-IsSorted (x ∷ xs) = insert-IsSorted x (from_list xs) (from_list-IsSorted xs)

  pub Above-remove : (b a : K) (xs : List K) → Above b xs → Above b (remove a xs)
  unfolding remove
  Above-remove b a [] h = h
  Above-remove b a (x ∷ xs) h = ground (arith, Above-remove b a xs)

  pub remove-IsSorted : (a : K) (xs : List K) → IsSorted xs → IsSorted (remove a xs)
  unfolding remove
  remove-IsSorted a [] h = h
  remove-IsSorted a (x ∷ xs) h = ground (arith, remove-IsSorted a xs, Above-remove x a xs)

  pub Above-not_contains : (a : K) (xs : List K) → Above a xs → contains xs a ≡ false
  unfolding contains
  Above-not_contains a [] h = refl
  Above-not_contains a (x ∷ xs) (h, hs) = rw (eqb-≻ a x h) (Above-not_contains a xs hs)

  Above-filter : (b : K) (p : K → Bool) (xs : List K) → Above b xs → Above b (filter p xs)
  unfolding filter
  Above-filter b p [] h = h
  Above-filter b p (x ∷ xs) h = ground (arith, Above-filter b p xs)

  pub filter-IsSorted : (p : K → Bool) (xs : List K) → IsSorted xs → IsSorted (filter p xs)
  unfolding filter
  filter-IsSorted p [] h = h
  filter-IsSorted p (x ∷ xs) h = ground (arith, filter-IsSorted p xs, Above-filter x p xs)

  pub contains-filter :
      (p : K → Bool) (xs : List K) (b : K)
      → contains (filter p xs) b ≡ (if p b then contains xs b else false)
  unfolding contains filter
  contains-filter p [] b = ground arith
  contains-filter p (x ∷ xs) b = elim (Bool-cases (eqb x b)) [
    | inl e ↦ rw ((eqb_iff x b).0 e) (ground (arith, eqb_refl b, contains-filter p xs b))
    | inr n ↦ ground (arith, contains-filter p xs b)
  ]

  SameMembers→head :
      (x y : K) (xs ys : List K)
      → Above x xs
      → Above y ys
      → ((a : K) → contains (x ∷ xs) a ≡ contains (y ∷ ys) a)
      → x ≡ y
  unfolding contains
  SameMembers→head x y xs ys hx hy e = elim (≺_cases x y) [
    | inl l ↦
        ground
          (arith, e x, eqb_refl x, eqb-≻ x y l, Above-not_contains x ys (Above-trans x y ys l hy))
    | inr (inl q) ↦ q
    | inr (inr g) ↦
        ground
          (arith, e y, eqb_refl y, eqb-≻ y x g, Above-not_contains y xs (Above-trans y x xs g hx))
  ]

  -- A set has one representation: two sorted lists with the same members are equal.
  pub IsSorted-ext :
      (xs ys : List K)
      → IsSorted xs
      → IsSorted ys
      → ((a : K) → contains xs a ≡ contains ys a)
      → xs ≡ ys
  unfolding contains
  IsSorted-ext [] [] hx hy e = refl
  IsSorted-ext [] (y ∷ ys) hx hy e = ground (arith, e y, eqb_refl y)
  IsSorted-ext (x ∷ xs) [] hx hy e = ground (arith, e x, eqb_refl x)
  IsSorted-ext (x ∷ xs) (y ∷ ys) (ax, hx) (ay, hy) e = ap₂ ◌∷◌ head (IsSorted-ext xs ys hx hy same)
    where
      head : x ≡ y
      head = SameMembers→head x y xs ys ax ay e

      same : (a : K) → contains xs a ≡ contains ys a
      same a = ground (
        arith,
        e a,
        head,
        eqb_iff x a,
        eqb_iff y a,
        Above-not_contains x xs ax,
        Above-not_contains y ys ay,
      )

  pub from_list-ext :
      (xs ys : List K) → ((a : K) → contains xs a ≡ contains ys a) → from_list xs ≡ from_list ys
  from_list-ext xs ys e =
      IsSorted-ext (from_list xs) (from_list ys) (from_list-IsSorted xs) (from_list-IsSorted ys)
        λ a. contains-from_list xs a ∙ e a ∙ sym (contains-from_list ys a)

  pub from_list-of_sorted : (xs : List K) → IsSorted xs → from_list xs ≡ xs
  from_list-of_sorted xs h =
      IsSorted-ext (from_list xs) xs (from_list-IsSorted xs) h (contains-from_list xs)

  insert-All {κ} : (P : K → Type κ) (a : K) (xs : List K) → P a → All P xs → All P (insert a xs)
  unfolding insert
  insert-All P a [] h hs = (h, tt)
  insert-All P a (x ∷ xs) h (hx, hs) = ground (arith, insert-All P a xs h hs)

  pub from_list-All {κ} : (P : K → Type κ) (xs : List K) → All P xs → All P (from_list xs)
  unfolding from_list
  from_list-All P [] h = tt
  from_list-All P (x ∷ xs) (h, hs) = insert-All P x (from_list xs) h (from_list-All P xs hs)
