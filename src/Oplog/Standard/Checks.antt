-- ===== src/Oplog/Standard/Checks.antt =====
-- crates/tessra-oplog/src/standard.rs: the predicates `structural`, `attest` and `approved` of `holds`. A
-- `Holds` is a Boolean: the reason of a `No` is left out.
pub mod Trust
use tessra.Prelude.{
  ℕ, zero, suc, ◌+◌, ◌-◌, ◌^◌, max, min, Bool, true, false, ◌&&◌, ◌||◌, not, List, [], ◌∷◌, ◌++◌,
  map, Bytes, codes, Option, none, some, if◌then◌else◌, ltb, leb, ◌==◌, any, all, filter, eqb,
  contains, lookup, length, head?, list_ord, nat_ord,
}
use tessra.Core.Result.{Result, ok, err, ◌>>=◌, Error}
use tessra.Core.Id.{EntityId}
use tessra.Core.Value.{Value, Entries}
use tessra.Oplog.Standard.Data.{Flags, Node, NodeIndex, Predicate, is_none, no_flags}
use tessra.Oplog.Standard.Numbers.{zero_i64, i64_of_integer, i64_of_negative, number_of}
use tessra.Oplog.Standard.Context.{
  Ctx, Loaded, uncoverable_kinds, changed_units, new_tests, is_test_kind, truthy, trusted,
  uncovered_by_bodies, or_empty, on_revision, subject_attested, structural_units, selected,
}

-- `p.args.as_ref().and_then(|a| a.get(k))`
unfoldable pub arg : Predicate → Bytes → Option Value
arg p k = lookup k (or_empty p.args)

abbrev pub name_or_empty : Predicate → Bytes
name_or_empty p = or_empty p.name

unfoldable pub is_set : Option Value → Bool
is_set (some (Value.boolean b)) = b
is_set _ = false

unfoldable pub text_of : Option Value → Option Bytes
text_of (some (Value.text t)) = some t
text_of _ = none

abbrev pub some_unit : Option (List Node) → Bool
some_unit none = false
some_unit (some []) = false
some_unit (some (n ∷ ns)) = true

-- A letter or `_`, and a digit besides.
abbrev pub is_letter : ℕ → Bool
is_letter c = (leb 65 c && leb c 90) || (leb 97 c && leb c 122) || c == 95

abbrev pub is_letter_or_digit : ℕ → Bool
is_letter_or_digit c = is_letter c || (leb 48 c && leb c 57)

unfoldable pub is_ident : Bytes → Bool
is_ident [] = false
is_ident (c ∷ cs) = is_letter c && all is_letter_or_digit cs

-- What the units of kind `test` depend on.
unfoldable pub tested_ids : List Node → List EntityId
tested_ids [] = []
tested_ids (n ∷ ns) =
    let rest = tested_ids ns in if eqb n.kind (codes "test") then or_empty n.deps ++ rest else rest

abbrev pub is_coverable : Node → Bool
is_coverable n = not (contains uncoverable_kinds n.kind)

abbrev pub is_empty_list {ℓ} : {A : Type ℓ} → List A → Bool
is_empty_list [] = true
is_empty_list (x ∷ xs) = false

-- `changed.covered`
unfoldable pub all_covered : Option NodeIndex → Option (List Node) → Bool
unfolding tested_ids is_ident filter
all_covered (some idx) (some changed) = is_empty_list (
    filter (λ n. not (contains (tested_ids idx.nodes) n.nid))
      (filter (λ n. is_coverable n && is_ident n.name) changed))
all_covered _ _ = false

unfoldable pub holds_structural : Ctx → Option Bytes → Bool
unfolding structural_units all_covered
holds_structural ctx none = false
holds_structural ctx (some name) =
    if eqb name (codes "flags.none")
    then no_flags_in ctx.revision.flags
    else if eqb name (codes "intent.linked")
    then not (is_none ctx.revision.intent)
    else if eqb name (codes "changed.covered")
    then all_covered ctx.index (changed_units ctx)
    else some_unit (structural_units ctx name)
  where
    no_flags_in : Option Flags → Bool
    no_flags_in none = true
    no_flags_in (some f) = no_flags f

-- A run on the bodies of every unit that a test could cover or that is a test.
unfoldable pub attested_by_bodies : Ctx → Bytes → Bool → Option (List Node) → Bool
unfolding uncovered_by_bodies
attested_by_bodies ctx kind allow_self none = false
attested_by_bodies ctx kind allow_self (some changed) =
    let coverable = filter (λ n. is_coverable n || is_test_kind n.kind) changed in
    not (is_empty_list coverable)
    && is_empty_list (uncovered_by_bodies ctx kind coverable allow_self)

unfoldable pub units_attested : Ctx → Bytes → Bool → Option (List Node) → Bool
unfolding uncovered_by_bodies
units_attested ctx kind allow_self none = false
units_attested ctx kind allow_self (some units) =
    is_empty_list (uncovered_by_bodies ctx kind units allow_self)

-- By the argument `for`.
unfoldable pub attested : Ctx → Bytes → Bool → Option Bytes → Bool
unfolding subject_attested attested_by_bodies units_attested
attested ctx kind allow_self none =
    subject_attested ctx kind allow_self
    || attested_by_bodies ctx kind allow_self (changed_units ctx)
attested ctx kind allow_self (some scope) =
    if eqb scope (codes "new_tests")
    then units_attested ctx kind allow_self (new_tests ctx)
    else if eqb scope (codes "changed_nodes")
    then units_attested ctx kind allow_self (selected is_coverable (changed_units ctx))
    else false

unfoldable pub holds_attest : Ctx → Predicate → Bool
unfolding attested is_set text_of arg
holds_attest ctx p =
    attested ctx (name_or_empty p) (is_set (arg p (codes "self"))) (text_of (arg p (codes "for")))

abbrev pub is_human : Option Bytes → Bool
is_human none = false
is_human (some k) = eqb k (codes "human")

-- A true approval of the revision by a human.
unfoldable pub approves : Ctx → Bool → Loaded → Bool
unfolding truthy on_revision
approves ctx keysigned l =
    eqb l.att.kind (codes "approval.human")
    && truthy l.att.result
    && is_human l.signer_kind
    && (not keysigned || is_none l.att.runner)
    && on_revision ctx l

abbrev pub approver : Option Bytes → Bytes
approver none = codes "human"
approver (some by) = by

unfoldable pub holds_approved : Ctx → Predicate → Bool
unfolding approves any is_set arg
holds_approved ctx p =
    eqb (approver p.name) (codes "human")
    && any (approves ctx (is_set (arg p (codes "keysigned")))) ctx.attests
