-- ===== src/Oplog/View/Parts/Lines.antt =====
-- Lines: which head a merge leaves.
use tessra.Prelude.{ℕ, ◌==◌, ◌≡◌, ◌≢◌, refl, ap, sym, ◌∙◌, arith, Bool, true, false, ◌&&◌, ◌||◌}
use tessra.Prelude.{Option, none, some, if◌then◌else◌, eqb_comm, list_ord, nat_ord}
use tessra.Prelude.{contains, Bool-ext, Bool-cases, inl, inr}
use tessra.Core.Id.{ObjectId}
use tessra.Core.Value.{Value, value_eq, value_eq_iff}
use tessra.Oplog.View.Pointer.{Pointer, from_value, to_value, union, ids}
use tessra.Oplog.View.Pointer.Forms.{
  union-ids, union-IsPointer, from_value-IsPointer, from_value-to_value,
}
use tessra.Oplog.View.Data.{LineState}
use tessra.Oplog.View.Parts.{conflict_head, merge_line, line_eq, merge_changed_line, merge_lines_at}

value_eq_refl : (a : Value) → value_eq a a ≡ true
value_eq_refl a = (value_eq_iff a a).1 refl

differ : (a b : Value) → a ≢ b → value_eq a b ≡ false
differ a b n = elim (Bool-cases (value_eq a b)) [
  | inl e ↦ absurd (n ((value_eq_iff a b).0 e))
  | inr e ↦ e
]

abbrev pub head_of : Option LineState → Option Value
head_of none = none
head_of (some l) = some l.head

line_eq-head : (x y : LineState) → line_eq x y ≡ true → x.head ≡ y.head
unfolding line_eq
line_eq-head x y h = (value_eq_iff x.head y.head).0 (ground arith)

value_eq_comm : (a b : Value) → value_eq a b ≡ value_eq b a
value_eq_comm a b =
    Bool-ext (value_eq a b) (value_eq b a)
      (λ h. (value_eq_iff b a).1 (sym ((value_eq_iff a b).0 h)))
      (λ h. (value_eq_iff a b).1 (sym ((value_eq_iff b a).0 h)))

number_eq_comm : (a b : ℕ) → (a == b) ≡ (b == a)
number_eq_comm a b = ground arith

conjunction :
    (a a' b b' c c' d d' : Bool)
    → a ≡ a'
    → b ≡ b'
    → c ≡ c'
    → d ≡ d'
    → (a && b && c && d) ≡ (a' && b' && c' && d')
conjunction a a' b b' c c' d d' ha hb hc hd = ground arith

line_eq_comm : (x y : LineState) → line_eq x y ≡ line_eq y x
unfolding line_eq
line_eq_comm x y =
    conjunction _ _ _ _ _ _ _ _ (eqb_comm x.id y.id) (value_eq_comm x.head y.head)
      (number_eq_comm x.seq y.seq) (eqb_comm x.coordinator y.coordinator)

line_differ : (x y : LineState) → x.head ≢ y.head → line_eq x y ≡ false
line_differ x y n = elim (Bool-cases (line_eq x y)) [
  | inl e ↦ absurd (n (line_eq-head x y e))
  | inr e ↦ e
]

-- Two sides that created one line: the first side's head is dropped.
pub created_line_head :
    (x y : LineState) → head_of (merge_lines_at none (some x) (some y)) ≡ some y.head
unfolding merge_lines_at
created_line_head x y = elim (Bool-cases (line_eq x y)) [
  | inl e ↦ rw e (ap some (line_eq-head x y e))
  | inr n ↦ rw n (unfold merge_line in rw (value_eq_refl x.head))
]

conflict_head_comm :
    (v w : Value) (p q : Pointer)
    → from_value v ≡ some p
    → from_value w ≡ some q
    → conflict_head v (from_value v) (from_value w) ≡ conflict_head w (from_value w) (from_value v)
unfolding conflict_head
conflict_head_comm v w p q hp hq = let (c, s, e) = union-ids p q in rw (hp, hq) (ap to_value e)

merge_line-head_comm :
    (base x y : LineState) (p q : Pointer)
    → from_value x.head ≡ some p
    → from_value y.head ≡ some q
    → (merge_line base x y).head ≡ (merge_line base y x).head
unfolding merge_line
merge_line-head_comm base x y p q hp hq = ground (
  arith,
  value_eq_iff x.head base.head,
  value_eq_iff y.head base.head,
  value_eq_iff x.head y.head,
  value_eq_iff y.head x.head,
  conflict_head_comm x.head y.head p q hp hq,
)

merged_head :
    (xy yx xb yb : Bool) (base x y m n : LineState)
    → (xy ≡ true → x.head ≡ y.head)
    → xy ≡ yx
    → (xb ≡ true → x.head ≡ base.head)
    → (yb ≡ true → y.head ≡ base.head)
    → m.head ≡ n.head
    → (if xy then x else if xb then y else if yb then x else m).head
      ≡ (if yx then y else if yb then x else if xb then y else n).head
merged_head xy yx xb yb base x y m n hxy hyx hxb hyb h = ground arith

-- A line that the base has: its head does not depend on which side is which, where the heads are
-- pointers.
merge_lines_at-head_comm :
    (base x y : LineState) (p q : Pointer)
    → from_value x.head ≡ some p
    → from_value y.head ≡ some q
    → head_of (merge_lines_at (some base) (some x) (some y))
      ≡ head_of (merge_lines_at (some base) (some y) (some x))
unfolding merge_lines_at merge_changed_line
merge_lines_at-head_comm base x y p q hp hq = ap some (
    merged_head (line_eq x y) (line_eq y x) (line_eq x base) (line_eq y base) base x y
      (merge_line base x y) (merge_line base y x) (line_eq-head x y) (line_eq_comm x y)
      (line_eq-head x base) (line_eq-head y base) (merge_line-head_comm base x y p q hp hq))

changed_head :
    (base x y : LineState) (p q : Pointer)
    → from_value x.head ≡ some p
    → from_value y.head ≡ some q
    → x.head ≢ base.head
    → y.head ≢ base.head
    → x.head ≢ y.head
    → (merge_line base x y).head ≡ to_value (union p q)
unfolding merge_line
changed_head base x y p q hp hq nx ny nxy =
    rw (differ x.head base.head nx, differ y.head base.head ny, differ x.head y.head nxy, hp, hq)
      (unfold conflict_head in refl)

-- Where both sides moved a line's head to different pointers, no ID of either is lost: the merged
-- head is read as the pointer of the IDs of both.
pub merge_lines_at-union :
    (base x y : LineState) (p q : Pointer)
    → from_value x.head ≡ some p
    → from_value y.head ≡ some q
    → x.head ≢ base.head
    → y.head ≢ base.head
    → x.head ≢ y.head
    → (l : LineState) × (r : Pointer) × (merge_lines_at (some base) (some x) (some y) ≡ some l)
      × (from_value l.head ≡ some r)
      × ((i : ObjectId) → contains (ids r) i ≡ (contains (ids p) i || contains (ids q) i))
unfolding merge_lines_at merge_changed_line
merge_lines_at-union base x y p q hp hq nx ny nxy =
    let (c, s, e) = union-ids p q in
    (
      merge_line base x y,
      union p q,
      rw (line_differ x y nxy, line_differ x base nx, line_differ y base ny),
      ap from_value (changed_head base x y p q hp hq nx ny nxy)
          ∙ from_value-to_value (union p q) (
              union-IsPointer p q (from_value-IsPointer x.head p hp)
                (from_value-IsPointer y.head q hq)),
      c,
    )
