-- ===== src/Oplog/Standard/Runs.antt =====
-- A concrete standard, attestations and judges, and the theorems at concrete inputs.
use tessra.Prelude.{
  ℕ, ◌≡◌, ◌≤◌, refl, arith, true, [], ◌∷◌, List, codes, none, some, Option, All, length, any,
  filter, eqb, contains, lookup, list_ord, nat_ord, sort_by, insert_sorted, put, ◌<◌,
}
use tessra.Core.Result.{ok}
use tessra.Core.Id.{object_from_slice}
use tessra.Core.Hash.{object_id}
use tessra.Core.Value.{Value}
use tessra.Core.Store
use tessra.Core.Cbor.{decode}
use tessra.Core.Trie.Ops.{get, get_loop, get_at, load_node}
use tessra.Core.Trie.Node.{empty_node, set_slot, get_slot, nibble_at}
use tessra.Oplog.View.Merge.{entity}
use tessra.Oplog.Capability.Runs.{owner, view}
use tessra.Oplog.Verify.Objects
use tessra.Oplog.Standard.Data.{Predicate, Clause, Standard, Unmet}
use tessra.Oplog.Standard.Context.{Ctx, Loaded}
use tessra.Oplog.Standard.Checks.{arg, is_set, text_of, holds_attest, holds_approved}
use tessra.Oplog.Standard.Checks.Trust.{
  Attested, Some, IsApproval, holds_attest-Attested, holds_approved-Some,
}
use tessra.Oplog.Standard.Clauses.{Forms, read_some, sub_preds, check_clause}
use tessra.Oplog.Standard.Clauses.Ends.{IsNested, check_clause-ends}
use tessra.Oplog.Standard.Evaluate.{context, evaluate, if_read}
use tessra.Oplog.Standard.Evaluate.Met.{Extends, StandardMet, evaluate-StandardMet}
use tessra.Oplog.Verify.Steps.Runs.{db, forms, same_id, revision, attestation, tested, one_op}

is_met : evaluate db forms 5 one_op.store view owner same_id revision (same_id ∷ []) ≡ ok []
unfolding evaluate eqb contains lookup get get_loop get_at load_node set_slot get_slot nibble_at
    object_id decode sort_by insert_sorted Objects.get_object object_from_slice any filter entity
    Store.get_object Store.put_object put empty_node if_read
is_met = refl

evaluate-StandardMet_example :
    (sts : List Standard) × (ctx : Ctx) × Extends db one_op.store view (some owner) sts
    × (length sts ≤ 32)
    × (context db one_op.store view same_id revision (same_id ∷ []) ≡ ok ctx)
    × All (StandardMet forms 5 ctx) sts
evaluate-StandardMet_example =
    evaluate-StandardMet db one_op.store view forms 5 owner same_id revision (same_id ∷ []) is_met

abbrev tester : Loaded
tester = record {
  att = attestation;
  signer_kind = some (codes "verifier");
  signer_parent = none;
  signer_model = none;
}

abbrev approval : Loaded
approval = record {
  att = record attestation { kind = codes "approval.human" };
  signer_kind = some (codes "human");
  signer_parent = none;
  signer_model = none;
}

abbrev judge : Loaded
judge = record {
  att = record attestation { kind = codes "judge.style" };
  signer_kind = some (codes "session");
  signer_parent = some same_id;
  signer_model = some (codes "m");
}

abbrev ctx : Ctx
ctx = record {
  revision = revision;
  attests = tester ∷ approval ∷ judge ∷ [];
  subjects = same_id ∷ [];
  index = none;
  parent_index = none;
  author_parent = some owner;
}

is_tested : holds_attest ctx tested ≡ true
unfolding holds_attest lookup eqb contains any
is_tested = refl

holds_attest-Attested_example : Attested ctx (codes "test") none
unfolding arg lookup is_set text_of
holds_attest-Attested_example = holds_attest-Attested ctx tested refl is_tested

abbrev approved : Predicate
approved = record { kind = codes "approved"; name = some (codes "human"); args = none }

is_approved : holds_approved ctx approved ≡ true
unfolding holds_approved lookup eqb contains any
is_approved = refl

holds_approved-Some_example :
    Some (IsApproval ctx (is_set (arg approved (codes "keysigned")))) ctx.attests
holds_approved-Some_example = holds_approved-Some ctx approved is_approved

abbrev judged : Predicate
judged = record { kind = codes "judge"; name = some (codes "style"); args = none }

-- A text stands for the list of one predicate.
abbrev read_one : Value → Option (List Predicate)
read_one (Value.text t) = some (tested ∷ [])
read_one v = none

abbrev nesting : Forms
nesting = record { read_predicates = read_one; permille = λ f. 0 }

abbrev one_if_some : Option Value → ℕ
one_if_some none = 0
one_if_some (some v) = 1

abbrev rank : Predicate → ℕ
rank p = one_if_some (arg p (codes "preds"))

one_deep : (o : Option Value) → All (λ q. rank q < one_if_some o) (read_some nesting o)
unfolding arg lookup
one_deep none = tt
one_deep (some (Value.text t)) = (omega arith, tt)
one_deep (some (Value.integer n)) = tt
one_deep (some (Value.negative n)) = tt
one_deep (some (Value.float n)) = tt
one_deep (some (Value.bytes b)) = tt
one_deep (some (Value.boolean b)) = tt
one_deep (some Value.null) = tt
one_deep (some (Value.tag n v)) = tt
one_deep (some (Value.array vs)) = tt
one_deep (some (Value.map es)) = tt

nesting-IsNested : IsNested nesting rank
unfolding sub_preds
nesting-IsNested p = one_deep (arg p (codes "preds"))

abbrev every : Predicate
every = record {
  kind = codes "all";
  name = none;
  args = some ((codes "preds", Value.text (codes "x")) ∷ []);
}

abbrev require : Clause
require = record { op = codes "require"; pred = every; unless = some tested }

check_clause-ends_example : (u : Option Unmet) × (check_clause nesting ctx 2 require ≡ ok u)
unfolding arg lookup eqb
check_clause-ends_example =
    check_clause-ends nesting rank ctx 2 require nesting-IsNested (omega arith) (omega arith)
