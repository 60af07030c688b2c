-- ===== src/Oplog/View/Parts/Laws.antt =====
-- What a merge keeps, and that its sides may be swapped.
use tessra.Prelude.{
  ◌≡◌, refl, ap, sym, ◌∙◌, arith, Bool, true, false, ◌&&◌, ◌||◌, List, ◌++◌, Bytes,
}
use tessra.Prelude.{
  Option, none, some, if◌then◌else◌, eqb_iff, eqb_refl, eqb_comm, lower_comm, list_ord, nat_ord,
  is_some, Bool-cases, ◌⊎◌, inl, inr,
}
use tessra.Prelude.{
  contains, contains-from_list, contains-append, contains-filter, filter-IsSorted, from_list,
}
use tessra.Prelude.{IsSorted, IsSorted-ext, from_list-IsSorted}
use tessra.Prelude.{lookup, keys, lookup-collect, contains-keys}
use tessra.Core.Id.{EntityId, ObjectId}
use tessra.Oplog.View.Parts.{
  is_present, merge_set_vec, merge_deployed, merge_target, option_eq, lower_target,
}

-- An element that the base has stays if both sides have it, and another is added if a side has it.
pub contains-merge_set_vec :
    (base a b : List Bytes) (x : Bytes)
    → contains (merge_set_vec base a b) x
      ≡ (if contains base x then contains a x && contains b x else contains a x || contains b x)
unfolding merge_set_vec is_present
contains-merge_set_vec base a b x =
    contains-filter (λ x. is_present (contains base x) (contains a x) (contains b x))
      (from_list (base ++ (a ++ b))) x
    ∙ ground (
      arith,
      contains-from_list (base ++ (a ++ b)) x,
      contains-append base (a ++ b) x,
      contains-append a b x,
    )

merge_set_vec-IsSorted : (base a b : List Bytes) → IsSorted (merge_set_vec base a b)
unfolding merge_set_vec
merge_set_vec-IsSorted base a b =
    filter-IsSorted _ (from_list (base ++ (a ++ b))) (from_list-IsSorted (base ++ (a ++ b)))

-- A merged vector is ascending and without duplicates, swapping the sides does not change it, and a
-- side that did not change takes the other side, put in order.
merge_set_vec-sides :
    (base a b : List Bytes)
    → IsSorted (merge_set_vec base a b)
      × (merge_set_vec base a b ≡ merge_set_vec base b a)
      × (merge_set_vec base base b ≡ from_list b)
      × (merge_set_vec base a a ≡ from_list a)
merge_set_vec-sides base a b = (
  merge_set_vec-IsSorted base a b,
  IsSorted-ext _ _ (merge_set_vec-IsSorted base a b) (merge_set_vec-IsSorted base b a)
      λ x. ground (arith, contains-merge_set_vec base a b x, contains-merge_set_vec base b a x),
  IsSorted-ext _ _ (merge_set_vec-IsSorted base base b) (from_list-IsSorted b)
      λ x. ground (arith, contains-merge_set_vec base base b x, contains-from_list b x),
  IsSorted-ext _ _ (merge_set_vec-IsSorted base a a) (from_list-IsSorted a)
      λ x. ground (arith, contains-merge_set_vec base a a x, contains-from_list a x),
)

option_eq_iff : (a b : Option ObjectId) → (option_eq a b ≡ true → a ≡ b)
unfolding option_eq
option_eq_iff none none h = refl
option_eq_iff (some x) (some y) h = ap some ((eqb_iff x y).0 h)
option_eq_iff none (some y) h = cc
option_eq_iff (some x) none h = cc

option_eq_refl : (a : Option ObjectId) → option_eq a a ≡ true
unfolding option_eq
option_eq_refl none = refl
option_eq_refl (some x) = eqb_refl x

option_eq_comm : (a b : Option ObjectId) → option_eq a b ≡ option_eq b a
unfolding option_eq
option_eq_comm none none = refl
option_eq_comm (some x) (some y) = eqb_comm x y
option_eq_comm none (some y) = refl
option_eq_comm (some x) none = refl

lower_target_comm : (a b : Option ObjectId) → lower_target a b ≡ lower_target b a
unfolding lower_target
lower_target_comm none none = refl
lower_target_comm (some x) (some y) = ap some (lower_comm x y)
lower_target_comm none (some y) = refl
lower_target_comm (some x) none = refl

merge_target_comm : (base a b : Option ObjectId) → merge_target base a b ≡ merge_target base b a
unfolding merge_target
merge_target_comm base a b = ground (
  arith,
  option_eq_iff a base,
  option_eq_iff b base,
  option_eq_iff a b,
  option_eq_comm a b,
  lower_target_comm a b,
)

none_of : (a b c : Bool) → (a || b || c) ≡ false → (a ≡ false) × (b ≡ false) × (c ≡ false)
none_of a b c h = ground arith

absent : (a : Option ObjectId) → is_some a ≡ false → a ≡ none
absent none h = refl
absent (some x) h = cc

lookup-merge_deployed :
    (base a b : List (EntityId × ObjectId)) (k : EntityId)
    → lookup k (merge_deployed base a b) ≡ merge_target (lookup k base) (lookup k a) (lookup k b)
unfolding merge_deployed
lookup-merge_deployed base a b k =
    lookup-collect (from_list (keys base ++ (keys a ++ keys b)))
      (λ k. merge_target (lookup k base) (lookup k a) (lookup k b)) k
    ∙ cases (Bool-cases (contains (from_list (keys base ++ (keys a ++ keys b))) k))
  where
    everywhere :
        contains (from_list (keys base ++ (keys a ++ keys b))) k
        ≡ (is_some (lookup k base) || is_some (lookup k a) || is_some (lookup k b))
    everywhere =
        contains-from_list (keys base ++ (keys a ++ keys b)) k
        ∙ ground (
          arith,
          contains-append (keys base) (keys a ++ keys b) k,
          contains-append (keys a) (keys b) k,
          contains-keys base k,
          contains-keys a k,
          contains-keys b k,
        )

    cases :
        (contains (from_list (keys base ++ (keys a ++ keys b))) k ≡ true)
          ⊎ (contains (from_list (keys base ++ (keys a ++ keys b))) k ≡ false)
        → (if contains (from_list (keys base ++ (keys a ++ keys b))) k
            then merge_target (lookup k base) (lookup k a) (lookup k b)
            else none)
          ≡ merge_target (lookup k base) (lookup k a) (lookup k b)
    cases (inl h) = rw h
    cases (inr h) =
        let (x, y, z) =
          none_of (is_some (lookup k base)) (is_some (lookup k a)) (is_some (lookup k b))
            (sym everywhere ∙ h) in
        rw (h, absent (lookup k base) x, absent (lookup k a) y, absent (lookup k b) z)
          (unfold merge_target option_eq in refl)

merge_target_unchanged :
    (base b : Option ObjectId) → (merge_target base base b ≡ b) × (merge_target base b base ≡ b)
unfolding merge_target
merge_target_unchanged base b = ground (arith, option_eq_refl base, option_eq_iff b base)

-- The target of a deployment after a merge depends on its three targets alone; where one side is the
-- base it is the other side's, and swapping the sides does not change it.
lookup-merge_deployed_sides :
    (base a b : List (EntityId × ObjectId)) (k : EntityId)
    → (lookup k (merge_deployed base a b) ≡ merge_target (lookup k base) (lookup k a) (lookup k b))
      × (lookup k (merge_deployed base base b) ≡ lookup k b)
      × (lookup k (merge_deployed base a base) ≡ lookup k a)
      × (lookup k (merge_deployed base a b) ≡ lookup k (merge_deployed base b a))
lookup-merge_deployed_sides base a b k = (
  lookup-merge_deployed base a b k,
  lookup-merge_deployed base base b k ∙ (merge_target_unchanged (lookup k base) (lookup k b)).0,
  lookup-merge_deployed base a base k ∙ (merge_target_unchanged (lookup k base) (lookup k a)).1,
  lookup-merge_deployed base a b k
      ∙ merge_target_comm (lookup k base) (lookup k a) (lookup k b)
      ∙ sym (lookup-merge_deployed base b a k),
)
