-- ===== src/Oplog/View/Runs.antt =====
-- Concrete views, and the theorems at concrete inputs.
use tessra.Prelude.{
  ℕ, ◌≡◌, ◌≢◌, refl, ap, arith, true, false, ◌||◌, List, [], ◌∷◌, codes, replicate, none, some,
  if◌then◌else◌,
}
use tessra.Prelude.{eqb, ◌==◌, contains, sort, insert_sorted, filter, any, list_ord, nat_ord}
use tessra.Core.Result.{Result, ok}
use tessra.Core.Id.{EntityId, ObjectId, object_from_slice}
use tessra.Core.Value.{Value}
use tessra.Core.Trie.Proofs.Keys.{IsKey}
use tessra.Core.Trie.Proofs.Meaning.{IsRoot, value_at}
use tessra.Core.Trie.Sample.{nodes, start, start-IsTrie}
use tessra.Oplog.View.Pointer.{Pointer, to_value, from_value, ids}
use tessra.Oplog.View.Pointer.Forms.{from_value-to_value}
use tessra.Oplog.View.Data.{View, LineState, Effect}
use tessra.Oplog.View.Parts.{merge_lines_at, merge_set_vec}
use tessra.Oplog.View.Parts.Laws.{contains-merge_set_vec}
use tessra.Oplog.View.Parts.Lines.{head_of, created_line_head, merge_lines_at-union}
use tessra.Oplog.View.Merge.{pointer_at, entity}
use tessra.Oplog.View.Apply.{apply_effect, apply}
use tessra.Oplog.View.Apply.Laws.{IsTidy, apply-IsTidy}
use tessra.Oplog.View.Apply.Reads.{apply_effect-entity}
open nodes use {State}

abbrev one : ObjectId
one = replicate 32 1

abbrev two : ObjectId
two = replicate 32 2

abbrev both : Pointer
both = Pointer.conflict (one ∷ two ∷ [])

read_one : from_value (Value.bytes one) ≡ some (Pointer.id one)
unfolding from_value object_from_slice
read_one = refl

abbrev line : ObjectId → ℕ → LineState
line i n = record {
  id = codes "line";
  head = to_value (Pointer.id i);
  seq = n;
  coordinator = codes "c";
}

abbrev base : LineState
base = line (replicate 32 0) 1

one-read : from_value (line one 2).head ≡ some (Pointer.id one)
one-read = from_value-to_value (Pointer.id one) refl

two-read : from_value (line two 2).head ≡ some (Pointer.id two)
two-read = from_value-to_value (Pointer.id two) refl

abbrev first_byte : Value → ℕ
first_byte (Value.bytes (b ∷ bs)) = b
first_byte _ = 100

apart : (n m : ℕ) → (n == m) ≡ false → n ≢ m
apart n m h = ground arith

heads_apart :
    (n m : ℕ)
    → n ≢ m
    → to_value (Pointer.id (replicate 32 n)) ≢ to_value (Pointer.id (replicate 32 m))
unfolding to_value
heads_apart n m h e = h (ap first_byte e)

created_line_head_example :
    head_of (merge_lines_at none (some (line one 2)) (some (line two 2))) ≡ some (line two 2).head
created_line_head_example = created_line_head (line one 2) (line two 2)

merge_lines_at-union_example :
    (l : LineState) × (r : Pointer) × (merge_lines_at
        (some base)
        (some (line one 2))
        (some (line two 2))
      ≡ some l)
    × (from_value l.head ≡ some r)
    × ((i : ObjectId)
        → contains (ids r) i
          ≡ (contains (ids (Pointer.id one)) i || contains (ids (Pointer.id two)) i))
merge_lines_at-union_example =
    merge_lines_at-union base (line one 2) (line two 2) (Pointer.id one) (Pointer.id two) one-read
      two-read (heads_apart 1 0 (apart 1 0 refl)) (heads_apart 2 0 (apart 2 0 refl))
      (heads_apart 1 2 (apart 1 2 refl))

contains-merge_set_vec_example :
    contains (merge_set_vec (codes "a" ∷ []) (codes "b" ∷ []) (codes "a" ∷ [])) (codes "b") ≡ true
unfolding contains eqb
contains-merge_set_vec_example =
    contains-merge_set_vec (codes "a" ∷ []) (codes "b" ∷ []) (codes "a" ∷ []) (codes "b")

abbrev to_one : List (EntityId × ObjectId)
to_one = (codes "prod", one) ∷ []

abbrev to_two : List (EntityId × ObjectId)
to_two = (codes "prod", two) ∷ []

abbrev view : View
view = record {
  entities = start.0;
  proposed = start.0;
  claims = start.0;
  caps = start.0;
  revoked = start.0;
  tombstoned = start.0;
  lines = [];
  roots = [];
  owners = [];
  deployed = [];
  paused = none;
}

none-not_empty : view.paused ≢ some []
none-not_empty e = cc

abbrev steps : List Effect
steps =
    Effect.owner (codes "b")
    ∷ Effect.owner (codes "a")
    ∷ Effect.pause (codes "x")
    ∷ Effect.resume (codes "x")
    ∷ []

abbrev outcome : Result (View × State)
outcome = apply nodes view steps none start.1

outcome-view : outcome ≡ ok (record view { owners = codes "a" ∷ codes "b" ∷ [] }, start.1)
unfolding apply sort insert_sorted contains eqb filter any
outcome-view = refl

apply-IsTidy_example : IsTidy (record view { owners = codes "a" ∷ codes "b" ∷ [] })
apply-IsTidy_example =
    apply-IsTidy nodes view (record view { owners = codes "a" ∷ codes "b" ∷ [] }) steps none start.1
      start.1 outcome-view (tt, tt, none-not_empty)

abbrev thing : EntityId
thing = replicate 16 7

thing-IsKey : IsKey 16 thing
thing-IsKey = (refl, omega arith)

apply_effect-entity_example :
    (v' : View) × (s' : State) × (apply_effect nodes none view (Effect.point thing one none) start.1
      ≡ ok (v', s'))
    × IsRoot nodes 16 s' v'.entities
    × (entity nodes view thing start.1
        ≡ ok (pointer_at (value_at nodes 16 start.1 view.entities thing), start.1))
    × (entity nodes v' thing s'
        ≡ ok (
          (if eqb thing thing
              then some (Pointer.id one)
              else pointer_at (value_at nodes 16 start.1 view.entities thing)),
          s',
        ))
apply_effect-entity_example =
    apply_effect-entity nodes start.1 view none thing thing one none (start-IsTrie 16 31)
      thing-IsKey thing-IsKey
