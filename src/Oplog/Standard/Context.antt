-- ===== src/Oplog/Standard/Context.antt =====
-- crates/tessra-oplog/src/standard.rs: `Ctx`, what clauses read of a revision: the units that it changed,
-- the attestations cited, and the risk.
use tessra.Prelude.{
  ℕ, Bool, true, false, ◌&&◌, ◌||◌, not, List, [], ◌∷◌, ◌++◌, map, Bytes, codes, Option, none, some,
  if◌then◌else◌, ltb, any, filter, eqb, contains, list_ord, nat_ord,
}
use tessra.Core.Id.{EntityId, ObjectId}
use tessra.Core.Value.{Value, Entries}
use tessra.Oplog.Verify.Objects.{Revision}
use tessra.Oplog.Standard.Data.{Node, NodeIndex, Attestation}

abbrev pub trusted_attesters : List Bytes
trusted_attesters =
    codes "verifier"
    ∷ codes "daemon"
    ∷ codes "hook"
    ∷ codes "external"
    ∷ codes "human"
    ∷ codes "observer"
    ∷ codes "deployer"
    ∷ []

abbrev pub uncoverable_kinds : List Bytes
uncoverable_kinds =
    codes "import"
    ∷ codes "chunk"
    ∷ codes "test"
    ∷ codes "test.skipped"
    ∷ codes "impl"
    ∷ codes "module"
    ∷ codes "variant"
    ∷ codes "field"
    ∷ []

-- The name of the signer, which only reasons mention, is left out.
pub record Loaded : Type 0 where
  pub att : Attestation
  pub signer_kind : Option Bytes
  pub signer_parent : Option EntityId
  pub signer_model : Option Bytes

pub record Ctx : Type 0 where
  pub revision : Revision
  pub attests : List Loaded
  pub subjects : List Bytes
  pub index : Option NodeIndex
  pub parent_index : Option NodeIndex
  pub author_parent : Option EntityId

-- The `HashMap` of nodes by ID, in which the last of an ID stays.
unfoldable pub node_of : EntityId → List Node → Option Node
node_of id [] = none
node_of id (n ∷ ns) = elim (node_of id ns) [
  | some m ↦ some m
  | none ↦ if eqb n.nid id then some n else none
]

abbrev pub differs : Node → Option Node → Bool
differs n none = true
differs n (some p) = not (eqb p.body n.body) || not (eqb p.name n.name)

-- A unit that was added, or whose body or name changed.
unfoldable pub is_changed : List Node → Node → Bool
unfolding node_of
is_changed parent n = differs n (node_of n.nid parent)

unfoldable pub changed_in : Option NodeIndex → Option NodeIndex → Option (List Node)
unfolding is_changed filter
changed_in (some idx) (some parent) = some (filter (is_changed parent.nodes) idx.nodes)
changed_in _ _ = none

unfoldable pub changed_units : Ctx → Option (List Node)
unfolding changed_in
changed_units ctx = changed_in ctx.index ctx.parent_index

abbrev pub ids : List Node → List EntityId
ids ns = map (λ n. n.nid) ns

abbrev pub deleted_in : Option NodeIndex → Option NodeIndex → Option (List Node)
deleted_in (some idx) (some parent) =
    some (filter (λ n. not (contains (ids idx.nodes) n.nid)) parent.nodes)
deleted_in _ _ = none

unfoldable pub deleted_units : Ctx → Option (List Node)
deleted_units ctx = deleted_in ctx.index ctx.parent_index

unfoldable pub is_test_kind : Bytes → Bool
is_test_kind k = eqb k (codes "test") || eqb k (codes "test.skipped")

-- A test whose ID and whose body the parent does not have.
unfoldable pub is_new_test : List Node → Node → Bool
unfolding is_test_kind
is_new_test parent n =
    is_test_kind n.kind
    && not (contains (ids parent) n.nid)
    && not (contains (map (λ m. m.body) parent) n.body)

abbrev pub selected : (Node → Bool) → Option (List Node) → Option (List Node)
selected p none = none
selected p (some ns) = some (filter p ns)

abbrev pub new_tests_in : Option NodeIndex → Option (List Node) → Option (List Node)
new_tests_in none changed = none
new_tests_in (some parent) changed = selected (is_new_test parent.nodes) changed

unfoldable pub new_tests : Ctx → Option (List Node)
unfolding changed_units
new_tests ctx = new_tests_in ctx.parent_index (changed_units ctx)

abbrev pub is_trusted_kind : Option Bytes → Bool
is_trusted_kind none = false
is_trusted_kind (some k) = contains trusted_attesters k

-- `Ctx::trusted`
unfoldable pub trusted : Loaded → Bool → Bool
trusted l allow_self = allow_self || is_trusted_kind l.signer_kind

-- Some entry is `"ok": true`.
unfoldable pub has_ok : Entries → Bool
has_ok Entries.no_entry = false
has_ok (Entries.entry (Value.text t) (Value.boolean true) es) =
    let rest = has_ok es in eqb t (codes "ok") || rest
has_ok (Entries.entry k v es) = has_ok es

unfoldable pub truthy : Value → Bool
unfolding has_ok
truthy (Value.boolean b) = b
truthy (Value.map es) = has_ok es
truthy (Value.integer n) = true
truthy (Value.negative n) = true
truthy (Value.text t) = true
truthy (Value.array vs) = true
truthy _ = false

-- A true attestation of a kind by a signer who counts.
unfoldable pub counts : Bytes → Bool → Loaded → Bool
unfolding truthy trusted
counts kind allow_self l = eqb l.att.kind kind && truthy l.att.result && trusted l allow_self

abbrev pub or_empty {ℓ} : {A : Type ℓ} → Option (List A) → List A
or_empty none = []
or_empty (some xs) = xs

-- The bodies that the attestations which count name.
unfoldable pub covered_bodies : Bytes → Bool → List Loaded → List ObjectId
unfolding counts
covered_bodies kind allow_self [] = []
covered_bodies kind allow_self (l ∷ ls) =
    let rest = covered_bodies kind allow_self ls in
    if counts kind allow_self l then or_empty l.att.bodies ++ rest else rest

unfoldable pub uncovered_by_bodies : Ctx → Bytes → List Node → Bool → List Node
unfolding covered_bodies filter
uncovered_by_bodies ctx kind units allow_self =
    filter (λ u. not (contains (covered_bodies kind allow_self ctx.attests) u.body)) units

abbrev pub is_subject : List Bytes → Option Bytes → Bool
is_subject subjects none = false
is_subject subjects (some s) = contains subjects s

-- The attestation names the revision.
unfoldable pub on_revision : Ctx → Loaded → Bool
on_revision ctx l = is_subject ctx.subjects l.att.subject

unfoldable pub subject_attested : Ctx → Bytes → Bool → Bool
unfolding counts on_revision any
subject_attested ctx kind allow_self =
    any (λ l. counts kind allow_self l && on_revision ctx l) ctx.attests

-- The first entry of a key.
unfoldable pub entry_of : Bytes → Entries → Option Value
entry_of key Entries.no_entry = none
entry_of key (Entries.entry (Value.text t) v es) =
    let rest = entry_of key es in if eqb t key then some v else rest
entry_of key (Entries.entry k v es) = entry_of key es

abbrev pub is_later : Attestation → Option Attestation → Bool
is_later a none = true
is_later a (some b) = ltb b.time a.time

-- The latest attestation of the risk on the revision, the first of one time.
unfoldable pub latest_risk : Ctx → Option Attestation → List Loaded → Option Attestation
unfolding trusted on_revision
latest_risk ctx best [] = best
latest_risk ctx best (l ∷ ls) =
    let counted = eqb l.att.kind (codes "risk.change") && trusted l false && on_revision ctx l in
    latest_risk ctx (if counted && is_later l.att best then some l.att else best) ls

-- The level, where there is a score.
abbrev pub level_of : Option Value → Option Value → Option Bytes
level_of (some (Value.integer n)) (some (Value.text t)) = some t
level_of (some (Value.negative n)) (some (Value.text t)) = some t
level_of _ _ = none

abbrev pub level_in : Option Attestation → Option Bytes
level_in none = none
level_in (some a) = elim a.result [
  | Value.map es ↦ level_of (entry_of (codes "score") es) (entry_of (codes "level") es)
  | _ ↦ none
]

-- `Ctx::risk`, without the score and the factors, which only reasons mention.
unfoldable pub risk : Ctx → Option Bytes
unfolding latest_risk
risk ctx = level_in (latest_risk ctx none ctx.attests)

unfoldable pub level_rank : Bytes → ℕ
level_rank level =
    if eqb level (codes "medium")
    then 1
    else if eqb level (codes "high")
    then 2
    else if eqb level (codes "critical")
    then 3
    else 0

-- `structural_units`
unfoldable pub structural_units : Ctx → Bytes → Option (List Node)
unfolding changed_units deleted_units is_test_kind
structural_units ctx name =
    let modified = selected_modified ctx.parent_index (changed_units ctx) in
    let deleted = selected (λ n. is_test_kind n.kind) (deleted_units ctx) in
    if eqb name (codes "test.modified")
    then modified
    else if eqb name (codes "test.deleted")
    then deleted
    else if eqb name (codes "test.weakened")
    then both modified deleted
    else if eqb name (codes "test.skipped")
    then selected (λ n. eqb n.kind (codes "test.skipped")) (changed_units ctx)
    else none
  where
    selected_modified : Option NodeIndex → Option (List Node) → Option (List Node)
    selected_modified none changed = none
    selected_modified (some parent) changed =
        selected (λ n. is_test_kind n.kind && contains (ids parent.nodes) n.nid) changed

    both : Option (List Node) → Option (List Node) → Option (List Node)
    both (some xs) (some ys) = some (xs ++ ys)
    both _ _ = none
