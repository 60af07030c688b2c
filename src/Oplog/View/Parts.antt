-- ===== src/Oplog/View/Parts.antt =====
-- The rules of `ViewState::merge` for lines, vectors that stand for sets, deployments and pauses.
pub mod Lines
pub mod Laws
use tessra.Prelude.{
  ℕ, ◌==◌, max, Ordering, Bool, true, false, ◌&&◌, ◌||◌, not, List, [], ◌∷◌, ◌++◌, Bytes, Option,
  none, some, if◌then◌else◌,
}
use tessra.Prelude.{
  lower, ordering, eqb, eqb_iff, contains, filter, from_list, any, lookup, keys, collect, sort_by,
  list_ord, nat_ord,
}
use tessra.Core.Id.{EntityId, ObjectId}
use tessra.Core.Value.{Value, value_eq}
use tessra.Oplog.View.Pointer.{Pointer, from_value, to_value, union}
use tessra.Oplog.View.Data.{LineState, PauseState}

-- Both sides changed the head: a conflict of both, if both are pointers.
unfoldable pub conflict_head : Value → Option Pointer → Option Pointer → Value
conflict_head old (some x) (some y) = to_value (union x y)
conflict_head old _ _ = old

unfoldable pub merge_line : LineState → LineState → LineState → LineState
unfolding value_eq eqb
merge_line base a b = record {
  id = a.id;
  head =
      if value_eq a.head base.head
      then b.head
      else if value_eq b.head base.head || value_eq a.head b.head
      then a.head
      else conflict_head a.head (from_value a.head) (from_value b.head);
  seq = max a.seq b.seq;
  coordinator =
      if eqb a.coordinator base.coordinator
      then b.coordinator
      else if eqb b.coordinator base.coordinator || eqb a.coordinator b.coordinator
      then a.coordinator
      else lower a.coordinator b.coordinator;
}

-- `==` on lines.
unfoldable pub line_eq : LineState → LineState → Bool
unfolding value_eq eqb
line_eq x y =
    eqb x.id y.id && value_eq x.head y.head && (x.seq == y.seq) && eqb x.coordinator y.coordinator

unfoldable pub merge_changed_line : LineState → LineState → LineState → LineState
unfolding line_eq
merge_changed_line base x y =
    if line_eq x base then y else if line_eq y base then x else merge_line base x y

unfoldable pub merge_lines_at :
    Option LineState → Option LineState → Option LineState → Option LineState
unfolding line_eq
merge_lines_at none (some x) (some y) = some (if line_eq x y then x else merge_line x x y)
merge_lines_at (some base) (some x) (some y) =
    some (if line_eq x y then x else merge_changed_line base x y)
merge_lines_at base (some x) none = some x
merge_lines_at base none (some y) = some y
merge_lines_at base none none = none

unfoldable pub merge_lines :
    List (Bytes × LineState)
    → List (Bytes × LineState)
    → List (Bytes × LineState)
    → List (Bytes × LineState)
merge_lines base a b =
    collect (from_list (keys base ++ (keys a ++ keys b)))
      λ name. merge_lines_at (lookup name base) (lookup name a) (lookup name b)

-- `present` in `merge_set_vec`
unfoldable pub is_present : Bool → Bool → Bool → Bool
is_present in_b in_a in_b2 = (in_a && in_b2) || (in_a && not in_b) || (in_b2 && not in_b)

unfoldable pub merge_set_vec : List Bytes → List Bytes → List Bytes → List Bytes
merge_set_vec base a b =
    filter (λ x. is_present (contains base x) (contains a x) (contains b x))
      (from_list (base ++ (a ++ b)))

-- `==` on optional IDs.
unfoldable pub option_eq : Option ObjectId → Option ObjectId → Bool
unfolding eqb
option_eq none none = true
option_eq (some x) (some y) = eqb x y
option_eq _ _ = false

unfoldable pub lower_target : Option ObjectId → Option ObjectId → Option ObjectId
lower_target (some x) (some y) = some (lower x y)
lower_target (some x) none = some x
lower_target none (some y) = some y
lower_target none none = none

unfoldable pub merge_target : Option ObjectId → Option ObjectId → Option ObjectId → Option ObjectId
unfolding option_eq lower_target
merge_target base a b =
    if option_eq a base
    then b
    else if option_eq b base || option_eq a b
    then a
    else lower_target a b

unfoldable pub merge_deployed :
    List (EntityId × ObjectId)
    → List (EntityId × ObjectId)
    → List (EntityId × ObjectId)
    → List (EntityId × ObjectId)
merge_deployed base a b =
    collect (from_list (keys base ++ (keys a ++ keys b)))
      λ k. merge_target (lookup k base) (lookup k a) (lookup k b)

-- `.iter().flatten()` on an optional vector.
unfoldable pub pauses : Option (List PauseState) → List PauseState
pauses none = []
pauses (some ps) = ps

unfoldable pub has_scope : Bytes → List PauseState → Bool
has_scope scope ps = any (λ (q : PauseState). eqb q.scope scope) ps

-- The loop that keeps the first pause of each scope.
unfoldable pub first_of_scope : List PauseState → List PauseState → List PauseState
first_of_scope kept [] = kept
first_of_scope kept (p ∷ ps) =
    first_of_scope (if has_scope p.scope kept then kept else kept ++ p ∷ []) ps

unfoldable pub merge_paused :
    Option (List PauseState) → Option (List PauseState) → Option (List PauseState)
merge_paused a b =
    elim (sort_by (λ (x y : PauseState). ordering x.scope y.scope)
      (first_of_scope [] (pauses a ++ pauses b))) [ [] ↦ none | p ∷ ps ↦ some (p ∷ ps) ]
