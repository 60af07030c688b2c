-- ===== src/Oplog/Verify/Runs.antt =====
-- Concrete trees, capabilities, lines and principals, and the theorems at concrete inputs.
use tessra.Prelude.{
  ◌≡◌, refl, arith, true, [], ◌∷◌, List, codes, none, some, All, eqb, contains, lookup, put, filter,
  list_ord, nat_ord, sort, sort_by, insert_sorted, from_list, insert, find, any,
}
use tessra.Core.Result.{ok}
use tessra.Core.Id.{object_from_slice}
use tessra.Core.Hash.{object_id}
use tessra.Core.Value.{Value}
use mathlib.Core.Bool.{decide}
use native.Mathlib.Decide.{ℕ_discrete}
use tessra.Core.Cbor.{decode, peek_tag}
use tessra.Core.Store.{get_object, put_object}
use tessra.Core.Trie.Node.{empty_node, set_slot, get_slot, nibble_at}
use tessra.Core.Trie.Ops.{get, get_loop, get_at, load_node}
use tessra.Oplog.View.Merge.{entity}
use tessra.Oplog.View.Data.{LineState, View, Op, Effect}
use tessra.Oplog.Glob
use tessra.Oplog.Capability.{Capability}
use tessra.Oplog.Capability.Runs.{owner, view, granted, everything}
use tessra.Oplog.Verify.Objects
use tessra.Oplog.Verify.Objects.{Objects, State, EntryKind, TreeEntry}
use tessra.Oplog.Verify.Trees.{changed_paths}
use tessra.Oplog.Verify.Trees.Covers.{Reported, entry_at, changed_paths-covers}
use tessra.Oplog.Verify.Landed.{head_ids, landed_revisions}
use tessra.Oplog.Verify.Landed.Reachable.{IsLanded, IsCache, landed_revisions_lem}
use tessra.Oplog.Verify.Legality.{legal_all}
use tessra.Oplog.Verify.Legality.Moves.{EffectLegal, legal_all-All}
use tessra.Oplog.Standard.Evaluate.{if_read, evaluate as standard_met}
use tessra.Oplog.Verify.Steps.Runs.{db, evaluate, same_id, revision, next, one_op, reads_as}

abbrev readme : TreeEntry
readme = record {
  name = codes "readme";
  kind = EntryKind.file;
  mode = none;
  ref = some same_id;
  terms = none;
}

-- Every revision has one root, whose tree holds one file.
abbrev with_tree : Objects
with_tree = record db {
  tree = reads_as (record { entries = some (readme ∷ []); shards = none });
  revision = reads_as (record revision { snapshots = (codes "main", same_id) ∷ [] });
}

readme_changed : changed_paths with_tree 5 one_op.store none same_id ≡ ok (codes "readme" ∷ [])
unfolding changed_paths eqb from_list insert find object_id decode sort_by insert_sorted
    Objects.get_object
readme_changed = refl

readme_there :
    entry_at with_tree one_op.store (some same_id) (codes "readme" ∷ []) ≡ ok (some readme)
unfolding entry_at changed_paths eqb find object_id decode sort_by insert_sorted Objects.get_object
readme_there = refl

readme_new : entry_at with_tree one_op.store none (codes "readme" ∷ []) ≡ ok none
unfolding entry_at changed_paths find
readme_new = refl

none-some : none ≡ some readme → ⊥
none-some e = cc

changed_paths-covers_example : Reported (codes "readme" ∷ []) [] (codes "readme" ∷ [])
changed_paths-covers_example =
    changed_paths-covers with_tree one_op.store 5 none same_id (codes "readme" ∷ [])
      (codes "readme" ∷ []) none (some readme) readme_changed readme_new readme_there tt refl
      none-some

-- A capability that allows one file.
abbrev one_file : Capability
one_file = record granted { write = record everything { paths = some (codes "readme" ∷ []) } }

abbrev proposal : Op
proposal = record next { effects = Effect.propose same_id ∷ [] }

-- A line whose head moves.
abbrev line : LineState
line = record { id = owner; head = Value.bytes same_id; seq = 3; coordinator = owner }

abbrev with_line : View
with_line = record view { lines = (codes "trunk", line) ∷ [] }

abbrev landing : List Effect
landing =
    Effect.head (codes "trunk") same_id (some (Value.bytes same_id)) 4 (same_id ∷ []) none
    ∷ Effect.point owner same_id (some (Value.bytes same_id))
    ∷ []

landing_legal : legal_all db evaluate one_op.store with_line [] next true landing ≡ ok tt
unfolding legal_all eqb contains lookup object_id decode sort_by insert_sorted get load_node
    get_object put_object put empty_node set_slot get_loop nibble_at get_at get_slot entity
    object_from_slice decide ℕ_discrete peek_tag standard_met any filter if_read
landing_legal = refl

legal_all-All_example : All (EffectLegal db one_op.store with_line next true evaluate []) landing
legal_all-All_example =
    legal_all-All db one_op.store with_line next true evaluate [] landing landing_legal

-- The head of the line, which has no parents, is all that landed.
head_landed :
    landed_revisions db 10 [] one_op.store with_line
    ≡ ok (same_id ∷ [], (same_id ∷ [], same_id ∷ []) ∷ [])
unfolding landed_revisions eqb contains insert lookup object_id decode sort sort_by insert_sorted
    object_from_slice
head_landed = refl

landed_revisions_lem_example :
    IsLanded db one_op.store (sort (head_ids with_line.lines)) (same_id ∷ [])
    × IsCache db one_op.store ((same_id ∷ [], same_id ∷ []) ∷ [])
landed_revisions_lem_example =
    landed_revisions_lem db one_op.store 10 [] ((same_id ∷ [], same_id ∷ []) ∷ []) with_line
      (same_id ∷ []) (tt, omega arith) head_landed
