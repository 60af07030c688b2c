-- ===== src/Oplog/Verify/Trees.antt =====
-- crates/tessra-oplog/src/verify.rs: the paths at which two trees differ.
pub mod Covers
use tessra.Prelude.{
  ℕ, zero, suc, Bool, true, false, ◌&&◌, List, [], ◌∷◌, ◌++◌, Bytes, codes, Option, none, some,
  if◌then◌else◌, map, eqb, find, ordering, sort_by, from_list, list_ord, nat_ord,
}
use mathlib.Core.Bool.{decide}
use native.Mathlib.Decide.{ℕ_discrete}
use tessra.Core.Result.{Result, ok, err, ◌>>=◌, Error}
use tessra.Core.Id.{ObjectId}
use tessra.Oplog.Verify.Objects.{
  Objects, State, EntryKind, ConflictTerm, TreeEntry, Tree, get_object,
}

EntryKind-discrete : Discrete EntryKind
EntryKind-discrete = hlevel

ConflictTerm-discrete : Discrete ConflictTerm
ConflictTerm-discrete = hlevel (ℕ_discrete, EntryKind-discrete)

unfoldable pub TreeEntry-discrete : Discrete TreeEntry
unfolding EntryKind-discrete ConflictTerm-discrete
TreeEntry-discrete = hlevel (ℕ_discrete, EntryKind-discrete, ConflictTerm-discrete)

-- `==` on entries.
unfoldable pub same_entry : TreeEntry → TreeEntry → Bool
unfolding TreeEntry-discrete
same_entry a b = decide (TreeEntry-discrete a b)

abbrev pub is_dir : EntryKind → Bool
is_dir EntryKind.dir = true
is_dir _ = false

-- `old == new`
unfoldable pub same_tree : Option ObjectId → Option ObjectId → Bool
same_tree none none = true
same_tree (some a) (some b) = eqb a b
same_tree _ _ = false

abbrev pub slash : ℕ
slash = 47

unfoldable pub joined : Bytes → Bytes → Bytes
joined [] name = name
joined prefix name = prefix ++ (slash ∷ name)

abbrev pub or_none : Option (List TreeEntry) → List TreeEntry
or_none none = []
or_none (some es) = es

abbrev pub flattened : Option (List (Option ObjectId)) → List (Option ObjectId)
flattened none = []
flattened (some ss) = ss

abbrev pub names : List TreeEntry → List Bytes
names es = map (λ (e : TreeEntry). e.name) es

abbrev pub named : Bytes → List TreeEntry → Option TreeEntry
named name es = find (λ (e : TreeEntry). eqb e.name name) es

module _ (db : Objects) where
  -- The loop of `load_entries` over the shards.
  unfoldable pub shard_entries : State db → List (Option ObjectId) → Result (List TreeEntry)
  shard_entries s [] = ok []
  shard_entries s (none ∷ shards) = shard_entries s shards
  shard_entries s (some i ∷ shards) = get_object db db.tree s i >>= λ t.
      shard_entries s shards >>= λ es. ok (or_none t.entries ++ es)

  unfoldable pub entries_of : State db → Tree → Option (List TreeEntry) → Result (List TreeEntry)
  unfolding shard_entries
  entries_of s t (some es) = ok es
  entries_of s t none = shard_entries s (flattened t.shards) >>= λ es.
      ok (sort_by (λ (a b : TreeEntry). ordering a.name b.name) es)

  unfoldable pub load_entries : State db → ObjectId → Result (List TreeEntry)
  unfolding entries_of
  load_entries s i = get_object db db.tree s i >>= λ t. entries_of s t t.entries

  unfoldable pub entries_at : State db → Option ObjectId → Result (List TreeEntry)
  unfolding load_entries
  entries_at s none = ok []
  entries_at s (some i) = load_entries s i

  -- One name of the loop of `diff_trees`, with the recursive call.
  unfoldable pub diff_entry :
      (Option ObjectId → Option ObjectId → Bytes → Result (List Bytes))
      → Option TreeEntry
      → Option TreeEntry
      → Bytes
      → Result (List Bytes)
  unfolding same_entry
  diff_entry diff (some a) (some b) path =
      if same_entry a b
      then ok []
      else if is_dir a.kind && is_dir b.kind
      then diff a.ref b.ref path
      else ok (path ∷ [])
  diff_entry diff (some a) none path =
      if is_dir a.kind then diff a.ref none path else ok (path ∷ [])
  diff_entry diff none (some b) path =
      if is_dir b.kind then diff none b.ref path else ok (path ∷ [])
  diff_entry diff none none path = ok (path ∷ [])

  unfoldable pub diff_names :
      (Option ObjectId → Option ObjectId → Bytes → Result (List Bytes))
      → List TreeEntry
      → List TreeEntry
      → Bytes
      → List Bytes
      → Result (List Bytes)
  unfolding diff_entry joined
  diff_names diff oe ne prefix [] = ok []
  diff_names diff oe ne prefix (name ∷ rest) =
      diff_entry diff (named name oe) (named name ne) (joined prefix name) >>= λ here.
      diff_names diff oe ne prefix rest >>= λ more. ok (here ++ more)

  -- `fuel` bounds the depth of the trees. What is pushed to `out` is returned.
  unfoldable pub diff_trees :
      ℕ → State db → Option ObjectId → Option ObjectId → Bytes → Result (List Bytes)
  unfolding same_tree entries_at diff_names
  diff_trees zero s old new prefix = if same_tree old new then ok [] else err Error.stuck
  diff_trees (suc fuel) s old new prefix =
      let walk = λ (a b : Option ObjectId) (path : Bytes). diff_trees fuel s a b path in
      let differ = entries_at s old >>= λ oe.
      entries_at s new >>= λ ne. diff_names walk oe ne prefix (from_list (names oe ++ names ne)) in
      if same_tree old new then ok [] else differ

  unfoldable pub changed_paths : ℕ → State db → Option ObjectId → ObjectId → Result (List Bytes)
  unfolding diff_trees
  changed_paths fuel s old new = diff_trees fuel s old (some new) []
