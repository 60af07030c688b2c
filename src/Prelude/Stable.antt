-- ===== src/Prelude/Stable.antt =====
-- `sort_by` under a total preorder: its result is ascending, what is ascending stays, and it commutes
-- with the removal of elements.
use Prim.Native.Nat.{Ordering}
use Prim.Native.Nat.Ordering.{lt, eq, gt}
use mathlib.Core.Path.{◌≡◌, refl, sym, ap, ◌∙◌}
use mathlib.Core.Logic.{◌≢◌, ◌⊎◌, inl, inr}
use mathlib.Core.Bool.{Bool, true, false}
use mathlib.Core.List.{List, [], ◌∷◌}
use native.Mathlib.Omega.{arith}
use tessra.Prelude.Tests.{if◌then◌else◌, Bool-cases}
use tessra.Prelude.Lists.{All, All-imp, filter}
use tessra.Prelude.Sorting.{insert_sorted, sort_by}

Ordering-cases : (o : Ordering) → (o ≡ gt) ⊎ (o ≢ gt)
Ordering-cases lt = inr (λ h. cc)
Ordering-cases eq = inr (λ h. cc)
Ordering-cases gt = inl refl

module _ {ℓ} {A : Type ℓ} (cmp : A → A → Ordering) where
  insert_sorted-before :
      (a x : A) (xs : List A) → cmp a x ≢ gt → insert_sorted cmp a (x ∷ xs) ≡ a ∷ x ∷ xs
  unfolding insert_sorted
  insert_sorted-before a x xs h = ground arith

  insert_sorted-after :
      (a x : A) (xs : List A)
      → cmp a x ≡ gt
      → insert_sorted cmp a (x ∷ xs) ≡ x ∷ insert_sorted cmp a xs
  unfolding insert_sorted
  insert_sorted-after a x xs h = ground arith

  insert_sorted-All {κ} :
      (P : A → Type κ) (a : A) (xs : List A) → P a → All P xs → All P (insert_sorted cmp a xs)
  insert_sorted-All P a [] h hs = unfold insert_sorted in (h, tt)
  insert_sorted-All P a (x ∷ xs) h (hx, hs) = elim (Ordering-cases (cmp a x)) [
    | inl after ↦ rw (insert_sorted-after a x xs after) (hx, insert_sorted-All P a xs h hs)
    | inr before ↦ rw (insert_sorted-before a x xs before) (h, (hx, hs))
  ]

  pub sort_by-All {κ} : (P : A → Type κ) (xs : List A) → All P xs → All P (sort_by cmp xs)
  unfolding sort_by
  sort_by-All P [] h = tt
  sort_by-All P (x ∷ xs) (h, hs) = insert_sorted-All P x (sort_by cmp xs) h (sort_by-All P xs hs)

  abbrev pub IsAscending : List A → Type ℓ
  IsAscending [] = Unit
  IsAscending (x ∷ xs) = All (λ y. cmp x y ≢ gt) xs × IsAscending xs

  insert_sorted-first :
      (a : A) (xs : List A) → All (λ y. cmp a y ≢ gt) xs → insert_sorted cmp a xs ≡ a ∷ xs
  insert_sorted-first a [] h = unfold insert_sorted in refl
  insert_sorted-first a (x ∷ xs) (h, hs) = insert_sorted-before a x xs h

  -- What is ascending stays.
  pub sort_by-of_ascending : (xs : List A) → IsAscending xs → sort_by cmp xs ≡ xs
  unfolding sort_by
  sort_by-of_ascending [] h = refl
  sort_by-of_ascending (x ∷ xs) (h, hs) =
      ap (insert_sorted cmp x) (sort_by-of_ascending xs hs) ∙ insert_sorted-first x xs h

  module _ (swap : (a b : A) → cmp a b ≡ gt → cmp b a ≢ gt)
      (trans : (a b c : A) → cmp a b ≢ gt → cmp b c ≢ gt → cmp a c ≢ gt) where
    insert_sorted-IsAscending :
        (a : A) (xs : List A) → IsAscending xs → IsAscending (insert_sorted cmp a xs)
    insert_sorted-IsAscending a [] h = unfold insert_sorted in (tt, tt)
    insert_sorted-IsAscending a (x ∷ xs) (h, hs) = elim (Ordering-cases (cmp a x)) [
      | inl after ↦ rw (insert_sorted-after a x xs after) (
        insert_sorted-All (λ y. cmp x y ≢ gt) a xs (swap a x after) h,
        insert_sorted-IsAscending a xs hs,
      )
      | inr before ↦
          rw (insert_sorted-before a x xs before)
            ((before, All-imp (λ y k. trans a x y before k) xs h), (h, hs))
    ]

    pub sort_by-IsAscending : (xs : List A) → IsAscending (sort_by cmp xs)
    unfolding sort_by
    sort_by-IsAscending [] = tt
    sort_by-IsAscending (x ∷ xs) =
        insert_sorted-IsAscending x (sort_by cmp xs) (sort_by-IsAscending xs)

    filter-All {κ} : (P : A → Type κ) (p : A → Bool) (xs : List A) → All P xs → All P (filter p xs)
    unfolding filter
    filter-All P p [] h = tt
    filter-All P p (x ∷ xs) (h, hs) = elim (Bool-cases (p x)) [
      | inl yes' ↦ rw yes' (h, filter-All P p xs hs)
      | inr no' ↦ rw no' (filter-All P p xs hs)
    ]

    filter-insert_sorted :
        (p : A → Bool) (a : A) (xs : List A)
        → IsAscending xs
        → filter p (insert_sorted cmp a xs)
          ≡ (if p a then insert_sorted cmp a (filter p xs) else filter p xs)
    unfolding filter
    filter-insert_sorted p a [] h = unfold insert_sorted in refl
    filter-insert_sorted p a (x ∷ xs) (h, hs) = elim (Ordering-cases (cmp a x)) [
      | inl after ↦ elim (Bool-cases (p x)) [
        | inl kept ↦
            rw (insert_sorted-after a x xs after, kept, filter-insert_sorted p a xs hs)
              (kept_case (p a) (filter p xs) after)
        | inr dropped ↦
            rw (insert_sorted-after a x xs after, dropped) (filter-insert_sorted p a xs hs)
      ]
      | inr before ↦ rw (insert_sorted-before a x xs before) (
          first_case (p a) (filter p (x ∷ xs)) (
            filter-All (λ y. cmp a y ≢ gt) p (x ∷ xs)
              (before, All-imp (λ y k. trans a x y before k) xs h)))
    ]
      where
        kept_case :
            (b : Bool) (rest : List A)
            → cmp a x ≡ gt
            → x ∷ (if b then insert_sorted cmp a rest else rest)
              ≡ (if b then insert_sorted cmp a (x ∷ rest) else x ∷ rest)
        kept_case true rest after = sym (insert_sorted-after a x rest after)
        kept_case false rest after = refl

        first_case :
            (b : Bool) (rest : List A)
            → All (λ y. cmp a y ≢ gt) rest
            → (if b then a ∷ rest else rest) ≡ (if b then insert_sorted cmp a rest else rest)
        first_case true rest all = sym (insert_sorted-first a rest all)
        first_case false rest all = refl

    -- Sorting what is kept is keeping of what is sorted.
    pub filter-sort_by :
        (p : A → Bool) (xs : List A) → filter p (sort_by cmp xs) ≡ sort_by cmp (filter p xs)
    unfolding filter sort_by
    filter-sort_by p [] = refl
    filter-sort_by p (x ∷ xs) =
        filter-insert_sorted p x (sort_by cmp xs) (sort_by-IsAscending xs)
        ∙ elim (Bool-cases (p x)) [
          | inl kept ↦ rw kept (ap (insert_sorted cmp x) (filter-sort_by p xs))
          | inr dropped ↦ rw dropped (filter-sort_by p xs)
        ]
