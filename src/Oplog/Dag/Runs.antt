-- ===== src/Oplog/Dag/Runs.antt =====
-- A concrete log, and the theorems at concrete inputs.
use tessra.Prelude.{
  ℕ, zero, suc, pos, ◌≡◌, refl, ap, subst, true, false, ◌||◌, ◌&&◌, not, List, [], ◌∷◌, ◌++◌, codes,
  length, get_elem?, replicate, Option, none, some, All, eqb, eqb_iff, contains, ◌↔◌, ◌≤◌, arith,
  Bool-cases, inl, inr, insert, lookup, list_ord, nat_ord, pair_ord,
}
use tessra.Core.Result.{Result, ok, err, ok-injective, Error}
use tessra.Core.Id.{ObjectId}
use tessra.Core.Value.{Value}
use tessra.Core.Trie.Ops.Store.{NodeStore}
use tessra.Core.Trie.Sample.{nodes, start}
use tessra.Oplog.View.Data.{View, Op}
use tessra.Oplog.Dag.Store.{OpStore}
use tessra.Oplog.Dag.{
  Log, new, idem_key, idem_of, known_as, record_op, accept, op_parents, ancestors,
}
use tessra.Oplog.Walk.Reached.{Reach}
use tessra.Oplog.Walk.Ends.{IsClosed, left_over}
use tessra.Oplog.Dag.Ancestry.{ancestors_lem}
use tessra.Oplog.Dag.Acceptance.{Keeps, IsLog, accept-IsLog, accept-heads, accept-again}

-- A store of nodes with a list of operations beside it: an ID is a place in the list.
abbrev pair_nodes : NodeStore
pair_nodes = record {
  State = nodes.State × List Op;
  load = λ s i. nodes.load s.0 i;
  save = λ s n. ((nodes.save s.0 n).0, ((nodes.save s.0 n).1, s.1));
  id_of = nodes.id_of;
  save_id = λ s n. nodes.save_id s.0 n;
  load_saved = λ s n. nodes.load_saved s.0 n;
  load_kept = λ s n m i h. nodes.load_kept s.0 n m i h;
}

abbrev pub found : Option Op → Result Op
found none = err Error.store
found (some o) = ok o

abbrev pub op_at : List Op → ObjectId → Result Op
op_at ops [] = err Error.store
op_at ops (n ∷ is) = found (get_elem? ops n)

pub get_elem?-last : (ops : List Op) (o : Op) → get_elem? (ops ++ o ∷ []) (length ops) ≡ some o
get_elem?-last [] o = refl
get_elem?-last (p ∷ ops) o = get_elem?-last ops o

get_elem?-more :
    (ops more : List Op) (n : ℕ) (o : Op)
    → found (get_elem? ops n) ≡ ok o
    → found (get_elem? (ops ++ more) n) ≡ ok o
get_elem?-more [] more n o h = cc
get_elem?-more (p ∷ ops) more zero o h = h
get_elem?-more (p ∷ ops) more (suc n) o h = get_elem?-more ops more n o h

pub op_at-more :
    (ops more : List Op) (i : ObjectId) (o : Op) → op_at ops i ≡ ok o → op_at (ops ++ more) i ≡ ok o
op_at-more ops more [] o h = cc
op_at-more ops more (n ∷ is) o h = get_elem?-more ops more n o h

abbrev pub db : OpStore
db = record {
  nodes = pair_nodes;
  load_op = λ s i. op_at s.1 i;
  load_view = λ s i. err Error.store;
  put_op = λ s o. (length s.1 ∷ [], (s.0, s.1 ++ o ∷ []));
  put_view = λ s v. s;
  op_saved = λ s o. ap found (get_elem?-last s.1 o);
  op_kept = λ s o p i h. op_at-more s.1 (o ∷ []) i p h;
  op_kept_view = λ s v p i h. h;
}

abbrev pub view : View
view = record {
  entities = start.0;
  proposed = start.0;
  claims = start.0;
  caps = start.0;
  revoked = start.0;
  tombstoned = start.0;
  lines = [];
  roots = [];
  owners = [];
  deployed = [];
  paused = none;
}

-- Every operation passes.
abbrev verify_op : Log db → Op → Result (View × (nodes.State × List Op))
verify_op log op = ok (view, log.store)

abbrev pub first : Op
first = record {
  parents = [];
  author = replicate 16 1;
  key = replicate 32 1;
  cap = none;
  kind = codes "init";
  args = [];
  effects = [];
  view = start.0;
  time = pos 0;
  desc = none;
  sig = none;
}

abbrev second : Op
second = record first {
  parents = (0 ∷ []) ∷ [];
  args = (codes "idem", Value.bytes (replicate 16 9)) ∷ [];
}

abbrev empty_log : Log db
empty_log = new (start.1, [])

abbrev one_op : Log db
one_op = (record_op db empty_log (start.1, []) first view).1

abbrev two_ops : Log db
two_ops = (record_op db one_op (start.1, first ∷ []) second view).1

one_op-accepted : accept db verify_op empty_log first ≡ ok (0 ∷ [], one_op)
unfolding accept idem_key idem_of lookup new
one_op-accepted = refl

two_ops-accepted : accept db verify_op one_op second ≡ ok (1 ∷ [], two_ops)
unfolding accept idem_key idem_of lookup record_op contains eqb insert new
two_ops-accepted = refl

keeps :
    (log : Log db) (op : Op) (q : View × (nodes.State × List Op))
    → verify_op log op ≡ ok q
    → Keeps db log.store q.1
keeps log op q e j o h = subst (λ p. op_at p.1.1 j ≡ ok o) (ok-injective e) h

never : {A : Type 0} → false ≡ true → A
never e = absurd (no e)
  where
    no : false ≡ true → ⊥
    no e = cc

empty_log-IsLog : IsLog db empty_log
unfolding new contains
empty_log-IsLog = (tt, λ i h. never h, λ i h. never h)

one_op-IsLog : IsLog db one_op
one_op-IsLog =
    accept-IsLog db verify_op empty_log one_op first (0 ∷ []) (keeps empty_log first)
      one_op-accepted empty_log-IsLog

accept-IsLog_example : IsLog db two_ops
accept-IsLog_example =
    accept-IsLog db verify_op one_op two_ops second (1 ∷ []) (keeps one_op second) two_ops-accepted
      one_op-IsLog

second_unknown : known_as one_op (idem_key second) ≡ none
unfolding known_as idem_key idem_of lookup record_op eqb new
second_unknown = refl

abbrev root_id : ObjectId
root_id = 0 ∷ []

abbrev second_id : ObjectId
second_id = 1 ∷ []

accept-heads_example :
    All (λ p. contains one_op.verified p ≡ true) second.parents
    × (contains two_ops.heads root_id ≡ (
        eqb second_id root_id
        || (contains one_op.heads root_id && not (contains second.parents root_id))))
    × (contains two_ops.verified root_id
        ≡ (eqb second_id root_id || contains one_op.verified root_id))
accept-heads_example =
    accept-heads db verify_op one_op two_ops second (1 ∷ []) (0 ∷ []) second_unknown
      two_ops-accepted

second_key : idem_key second ≡ some (replicate 16 1, replicate 16 9)
unfolding idem_key idem_of lookup eqb
second_key = refl

accept-again_example : accept db verify_op two_ops second ≡ ok (1 ∷ [], two_ops)
accept-again_example =
    accept-again db verify_op one_op two_ops second (1 ∷ []) (replicate 16 1, replicate 16 9)
      second_key two_ops-accepted

abbrev both_ops : List ObjectId
both_ops = root_id ∷ second_id ∷ []

two_ops-IsClosed : IsClosed (op_parents db two_ops.store) both_ops
unfolding op_parents record_op new contains
two_ops-IsClosed i h = elim (Bool-cases (eqb root_id i)) [
  | inl at_root ↦
      subst
        (λ i.
          (more : List ObjectId) × (op_parents db two_ops.store i ≡ ok more)
          × ((j : ObjectId) → contains more j ≡ true → contains both_ops j ≡ true))
        ((eqb_iff root_id i).0 at_root) ([], refl, λ j c. never c)
  | inr later ↦
      let at_second : eqb second_id i ≡ true = ground arith in
      subst
        (λ i.
          (more : List ObjectId) × (op_parents db two_ops.store i ≡ ok more)
          × ((j : ObjectId) → contains more j ≡ true → contains both_ops j ≡ true))
        ((eqb_iff second_id i).0 at_second) (root_id ∷ [], refl, λ j c. ground arith)
]

ancestors_lem_example :
    (out : List ObjectId) × (ancestors db 10 two_ops second_id ≡ ok out)
    × ((j : ObjectId)
        → (contains out j ≡ true) ↔ Reach (op_parents db two_ops.store) (second_id ∷ []) j)
ancestors_lem_example =
    ancestors_lem db 10 two_ops second_id both_ops two_ops-IsClosed second_there few
  where
    second_there : contains both_ops second_id ≡ true
    second_there = unfold contains eqb in refl

    few : suc (left_over (op_parents db two_ops.store) [] both_ops) ≤ 10
    few = unfold op_parents contains record_op new in omega arith
