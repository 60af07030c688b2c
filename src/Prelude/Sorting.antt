-- ===== src/Prelude/Sorting.antt =====
-- `sort` on vectors: stable, and duplicates stay.
use Prim.Native.Nat.{Ordering}
use Prim.Native.Nat.Ordering.{gt}
use mathlib.Core.Path.{◌≡◌, refl, ap, ◌∙◌}
use mathlib.Core.Bool.{false}
use mathlib.Core.List.{List, [], ◌∷◌, ◌++◌}
use native.Mathlib.Omega.{arith}
use tessra.Prelude.Ord.{Ord, eqb, eqb_comm}
use tessra.Prelude.Sets.{
  contains, IsSorted, insert, contains-insert, IsSorted-ext, insert-IsSorted, Above-not_contains,
}

module _ {ℓ} {A : Type ℓ} (cmp : A → A → Ordering) where
  -- `a` goes before the elements that are not less than it, since the rest is sorted first.
  unfoldable pub insert_sorted : A → List A → List A
  insert_sorted a [] = a ∷ []
  insert_sorted a (x ∷ xs) =
      let rest = x ∷ insert_sorted a xs in elim (cmp a x) [ gt ↦ rest | _ ↦ a ∷ x ∷ xs ]

  -- `sort_by`
  unfoldable pub sort_by : List A → List A
  sort_by [] = []
  sort_by (x ∷ xs) = insert_sorted x (sort_by xs)

module _ {ℓ} {K : Type ℓ} ⦃o : Ord K⦄ where
  unfoldable pub sort : List K → List K
  unfolding sort_by
  sort xs = sort_by o.cmp xs

module _ {ℓ} {K : Type ℓ} ⦃o : Ord K⦄ where
  insert_sorted-fresh :
      (a : K) (xs : List K) → contains xs a ≡ false → insert_sorted o.cmp a xs ≡ insert a xs
  unfolding insert_sorted insert contains eqb
  insert_sorted-fresh a [] h = refl
  insert_sorted-fresh a (x ∷ xs) h =
      ground (arith, o.cmp_swap a x, o.cmp_iff a x, insert_sorted-fresh a xs)

  cons-fresh :
      (x : K) (xs : List K) (a : K)
      → contains (x ∷ xs) a ≡ false
      → (eqb x a ≡ false) × (contains xs a ≡ false)
  unfolding contains
  cons-fresh x xs a f = ground arith

  insert-swap :
      (x a : K) (xs : List K) (b : K)
      → contains (insert x (insert a xs)) b ≡ contains (insert a (x ∷ xs)) b
  unfolding contains
  insert-swap x a xs b =
      contains-insert x (insert a xs) b
      ∙ ground (arith, contains-insert a xs b, contains-insert a (x ∷ xs) b)

  pub sort-push :
      (xs : List K) (a : K)
      → IsSorted xs
      → contains xs a ≡ false
      → sort (xs ++ a ∷ []) ≡ insert a xs
  unfolding sort sort_by
  sort-push [] a h f = unfold insert_sorted insert in refl
  sort-push (x ∷ xs) a (h, hs) f =
      ap (insert_sorted o.cmp x) (sort-push xs a hs (cons-fresh x xs a f).1)
      ∙ insert_sorted-fresh x (insert a xs) fresh
      ∙ IsSorted-ext (insert x (insert a xs)) (insert a (x ∷ xs))
          (insert-IsSorted x (insert a xs) (insert-IsSorted a xs hs))
          (insert-IsSorted a (x ∷ xs) (h, hs)) (insert-swap x a xs)
    where
      fresh : contains (insert a xs) x ≡ false
      fresh =
          rw (contains-insert a xs x, eqb_comm a x, (cons-fresh x xs a f).0)
            (Above-not_contains x xs h)
