-- ===== src/Oplog/Verify/Trees/Covers.antt =====
-- Whatever differs between two trees is at or below a path that `diff_trees` reports.
use tessra.Prelude.{
  ℕ, zero, suc, ◌≡◌, ◌≢◌, refl, sym, ap, ◌∙◌, subst, arith, true, false, ◌&&◌, List, [], ◌∷◌, ◌++◌,
  Bytes, Option, none, some, if◌then◌else◌, eqb, eqb_iff, find, contains, contains-append,
  contains-from_list, from_list, Bool-cases, Option-cases, inl, inr, list_ord, nat_ord,
}
use mathlib.Core.Bool.{decide}
use tessra.Core.Result.{Result, ok, ◌>>=◌, >>=-eq-ok, ok-injective}
use tessra.Core.Id.{ObjectId}
use tessra.Oplog.Verify.Objects.{Objects, State, TreeEntry}
use tessra.Oplog.Verify.Trees.{
  TreeEntry-discrete, same_entry, is_dir, same_tree, joined, names, named, entries_at, diff_entry,
  diff_names, diff_trees, changed_paths,
}

-- A path as its names, written below a prefix.
abbrev pub written : Bytes → List Bytes → Bytes
written prefix [] = prefix
written prefix (name ∷ rest) = written (joined prefix name) rest

abbrev pub IsLeaf : Option TreeEntry → Type 0
IsLeaf none = Unit {0}
IsLeaf (some e) = is_dir e.kind ≡ false

-- What stands below an entry, or the entry itself.
abbrev pub below :
    (Option ObjectId → Result (Option TreeEntry))
    → Option TreeEntry
    → List Bytes
    → Result (Option TreeEntry)
below go none rest = ok none
below go (some e) [] = ok (some e)
below go (some e) (n ∷ ns) = if is_dir e.kind then go e.ref else ok none

same_entry_sound : (a b : TreeEntry) → same_entry a b ≡ true → a ≡ b
unfolding same_entry decide
same_entry_sound a b = elim (TreeEntry-discrete a b) as (λ x. decide x ≡ true → a ≡ b) [
  | yes e ↦ λ h. e
  | no n ↦ λ h. cc
]

same_tree_sound : (a b : Option ObjectId) → same_tree a b ≡ true → a ≡ b
unfolding same_tree
same_tree_sound none none h = refl
same_tree_sound none (some b) h = cc
same_tree_sound (some a) none h = cc
same_tree_sound (some a) (some b) h = ap some ((eqb_iff a b).0 h)

named-contains :
    (name : Bytes) (es : List TreeEntry) (e : TreeEntry)
    → named name es ≡ some e
    → contains (names es) name ≡ true
unfolding find contains
named-contains name [] e h = cc
named-contains name (x ∷ es) e h = elim (Bool-cases (eqb x.name name)) [
  | inl same ↦ ground arith
  | inr other ↦ ground (arith, named-contains name es e (rw other at h))
]

-- The path or one above it is reported.
abbrev pub Reported : List Bytes → Bytes → List Bytes → Type 0
Reported out prefix path =
    (front : List Bytes) × (back : List Bytes) × (path ≡ front ++ back)
    × (contains out (written prefix front) ≡ true)

module _ (db : Objects) (s : State db) where
  -- The entry at a path, if there is one: a file, a link, or a directory.
  unfoldable pub entry_at : Option ObjectId → List Bytes → Result (Option TreeEntry)
  entry_at root [] = ok none
  entry_at root (name ∷ rest) =
      entries_at db s root >>= λ es. below (λ r. entry_at r rest) (named name es) rest

  -- Where the entries at a path differ and none is a directory, the path or one above it is reported.
  abbrev pub Covering : (Option ObjectId → Option ObjectId → Bytes → Result (List Bytes)) → Type 0
  Covering diff =
      (old new : Option ObjectId) (prefix : Bytes) (out : List Bytes) (path : List Bytes)
      (a b : Option TreeEntry)
      → diff old new prefix ≡ ok out
      → entry_at old path ≡ ok a
      → entry_at new path ≡ ok b
      → IsLeaf a
      → IsLeaf b
      → a ≢ b
      → Reported out prefix path

  entry_at-none : (path : List Bytes) → entry_at none path ≡ ok none
  unfolding entry_at entries_at find
  entry_at-none [] = refl
  entry_at-none (name ∷ rest) = refl

  not-leaf :
      (e : TreeEntry) (a : Option TreeEntry) → some e ≡ a → is_dir e.kind ≡ true → IsLeaf a → ⊥
  not-leaf e a same d leaf = cc (subst IsLeaf (sym same) leaf)

  longer :
      (out : List Bytes) (prefix name : Bytes) (rest : List Bytes)
      → Reported out (joined prefix name) rest
      → Reported out prefix (name ∷ rest)
  longer out prefix name rest (front, back, e, c) = (name ∷ front, back, ap (λ r. name ∷ r) e, c)

  here :
      (prefix name : Bytes) (rest : List Bytes)
      → Reported (joined prefix name ∷ []) prefix (name ∷ rest)
  unfolding contains
  here prefix name rest =
      (name ∷ [], rest, refl, ground (arith, eqb_iff (joined prefix name) (joined prefix name)))

  module _ (diff : Option ObjectId → Option ObjectId → Bytes → Result (List Bytes))
      (ih : Covering diff) where
    diff_entry-covers :
        (o n : Option TreeEntry) (prefix name : Bytes) (rest out : List Bytes)
        (a b : Option TreeEntry)
        → diff_entry db diff o n (joined prefix name) ≡ ok out
        → below (λ r. entry_at r rest) o rest ≡ ok a
        → below (λ r. entry_at r rest) n rest ≡ ok b
        → IsLeaf a
        → IsLeaf b
        → a ≢ b
        → Reported out prefix (name ∷ rest)
    unfolding diff_entry
    diff_entry-covers none none prefix name rest out a b e ea eb la lb ne =
        absurd (ne (sym (ok-injective ea) ∙ ok-injective eb))
    diff_entry-covers (some x) none prefix name rest out a b e ea eb la lb ne =
        elim (Bool-cases (is_dir x.kind)) [
          | inr flat ↦
              subst (λ l. Reported l prefix (name ∷ rest)) (ok-injective (rw flat at e))
                (here prefix name rest)
          | inl dir ↦ deeper rest ea eb dir
        ]
      where
        deeper :
            (rest : List Bytes)
            → below (λ r. entry_at r rest) (some x) rest ≡ ok a
            → below (λ r. entry_at r rest) none rest ≡ ok b
            → is_dir x.kind ≡ true
            → Reported out prefix (name ∷ rest)
        deeper [] ea eb dir = absurd (not-leaf x a (ok-injective ea) dir la)
        deeper (m ∷ ms) ea eb dir = longer out prefix name (m ∷ ms) (
            ih x.ref none (joined prefix name) out (m ∷ ms) a b (rw dir at e) (rw dir at ea)
              (entry_at-none (m ∷ ms) ∙ eb) la lb ne)
    diff_entry-covers none (some y) prefix name rest out a b e ea eb la lb ne =
        elim (Bool-cases (is_dir y.kind)) [
          | inr flat ↦
              subst (λ l. Reported l prefix (name ∷ rest)) (ok-injective (rw flat at e))
                (here prefix name rest)
          | inl dir ↦ deeper rest ea eb dir
        ]
      where
        deeper :
            (rest : List Bytes)
            → below (λ r. entry_at r rest) none rest ≡ ok a
            → below (λ r. entry_at r rest) (some y) rest ≡ ok b
            → is_dir y.kind ≡ true
            → Reported out prefix (name ∷ rest)
        deeper [] ea eb dir = absurd (not-leaf y b (ok-injective eb) dir lb)
        deeper (m ∷ ms) ea eb dir = longer out prefix name (m ∷ ms) (
            ih none y.ref (joined prefix name) out (m ∷ ms) a b (rw dir at e)
              (entry_at-none (m ∷ ms) ∙ ea) (rw dir at eb) la lb ne)
    diff_entry-covers (some x) (some y) prefix name rest out a b e ea eb la lb ne =
        elim (Bool-cases (same_entry x y)) [
          | inl same ↦
              let eq = same_entry_sound x y same in
              absurd (
                ne (
                  ok-injective
                    (sym ea ∙ ap (λ z. below (λ r. entry_at r rest) (some z) rest) eq ∙ eb)))
          | inr other ↦ elim (Bool-cases (is_dir x.kind && is_dir y.kind)) [
            | inr flat ↦
                subst (λ l. Reported l prefix (name ∷ rest)) (ok-injective (rw (other, flat) at e))
                  (here prefix name rest)
            | inl dirs ↦ deeper rest ea eb (ground arith) (ground arith) (rw (other, dirs) at e)
          ]
        ]
      where
        deeper :
            (rest : List Bytes)
            → below (λ r. entry_at r rest) (some x) rest ≡ ok a
            → below (λ r. entry_at r rest) (some y) rest ≡ ok b
            → is_dir x.kind ≡ true
            → is_dir y.kind ≡ true
            → diff x.ref y.ref (joined prefix name) ≡ ok out
            → Reported out prefix (name ∷ rest)
        deeper [] ea eb dx dy e = absurd (not-leaf x a (ok-injective ea) dx la)
        deeper (m ∷ ms) ea eb dx dy e = longer out prefix name (m ∷ ms) (
            ih x.ref y.ref (joined prefix name) out (m ∷ ms) a b e (rw dx at ea) (rw dy at eb) la lb
              ne)

    -- What one name contributes is in the result.
    diff_names-part :
        (oe ne : List TreeEntry) (prefix : Bytes) (ns out : List Bytes) (name : Bytes)
        → diff_names db diff oe ne prefix ns ≡ ok out
        → contains ns name ≡ true
        → (part : List Bytes) × (diff_entry db diff
              (named name oe)
              (named name ne)
              (joined prefix name)
            ≡ ok part)
          × ((x : Bytes) → contains part x ≡ true → contains out x ≡ true)
    unfolding diff_names contains
    diff_names-part oe ne prefix [] out name e c = absurd (cc)
    diff_names-part oe ne prefix (n ∷ ns) out name e c =
        let (part, e0, e1) =
          >>=-eq-ok (diff_entry db diff (named n oe) (named n ne) (joined prefix n)) _ e in
        let (more, e2, e3) = >>=-eq-ok (diff_names db diff oe ne prefix ns) _ e1 in
        let all = ok-injective e3 in
        elim (Bool-cases (eqb n name)) [
          | inl same ↦
              let eq = (eqb_iff n name).0 same in
              (
                part,
                subst
                    (λ m. diff_entry db diff (named m oe) (named m ne) (joined prefix m) ≡ ok part)
                    eq e0,
                λ x h.
                    subst (λ l. contains l x ≡ true) all
                      (ground (arith, contains-append part more x)),
              )
          | inr other ↦
              let later : contains ns name ≡ true = ground arith in
              let (part', f0, f1) = diff_names-part oe ne prefix ns more name e2 later in
              (
                part',
                f0,
                λ x h.
                    subst (λ l. contains l x ≡ true) all
                      (ground (arith, contains-append part more x, f1 x h)),
              )
        ]

    name_present :
        (oe ne : List TreeEntry) (name : Bytes) (rest : List Bytes) (a b : Option TreeEntry)
        → below (λ r. entry_at r rest) (named name oe) rest ≡ ok a
        → below (λ r. entry_at r rest) (named name ne) rest ≡ ok b
        → a ≢ b
        → contains (from_list (names oe ++ names ne)) name ≡ true
    name_present oe ne name rest a b ea eb d =
        contains-from_list (names oe ++ names ne) name
        ∙ contains-append (names oe) (names ne) name
        ∙ elim (Option-cases (named name oe)) [
          | inr (x, e) ↦ ground (arith, named-contains name oe x e)
          | inl missing ↦ elim (Option-cases (named name ne)) [
            | inr (y, f) ↦ ground (arith, named-contains name ne y f)
            | inl absent ↦
                absurd (d (sym (ok-injective (rw missing at ea)) ∙ ok-injective (rw absent at eb)))
          ]
        ]

  diff_trees-Covering : (fuel : ℕ) → Covering (λ a b path. diff_trees db fuel s a b path)
  unfolding diff_trees entry_at
  diff_trees-Covering zero old new prefix out path a b e ea eb la lb d =
      elim (Bool-cases (same_tree old new)) [
        | inl same ↦ absurd (
            d (
              ok-injective
                (sym ea ∙ ap (λ r. entry_at r path) (same_tree_sound old new same) ∙ eb)))
        | inr other ↦ absurd (cc (rw other at e))
      ]
  diff_trees-Covering (suc fuel) old new prefix out [] a b e ea eb la lb d =
      absurd (d (sym (ok-injective ea) ∙ ok-injective eb))
  diff_trees-Covering (suc fuel) old new prefix out (name ∷ rest) a b e ea eb la lb d =
      elim (Bool-cases (same_tree old new)) [
        | inl same ↦ absurd (
            d (
              ok-injective
                (sym ea ∙ ap (λ r. entry_at r (name ∷ rest)) (same_tree_sound old new same) ∙ eb)))
        | inr other ↦
            let walk = λ (x y : Option ObjectId) (p : Bytes). diff_trees db fuel s x y p in
            let (oe, lo, e1) = >>=-eq-ok (entries_at db s old) _ (rw other at e) in
            let (ne, ln, e2) = >>=-eq-ok (entries_at db s new) _ e1 in
            let fa : below (λ r. entry_at r rest) (named name oe) rest ≡ ok a = rw lo at ea in
            let fb : below (λ r. entry_at r rest) (named name ne) rest ≡ ok b = rw ln at eb in
            let ih = diff_trees-Covering fuel in
            let (part, f0, f1) =
              diff_names-part walk ih oe ne prefix (from_list (names oe ++ names ne)) out name e2
                (name_present walk ih oe ne name rest a b fa fb d) in
            let (front, back, p, c) =
              diff_entry-covers walk ih (named name oe) (named name ne) prefix name rest part a b f0
                fa fb la lb d in
            (front, back, p, f1 _ c)
      ]

  -- Where the entries at a path differ between two trees and neither is a directory, `changed_paths`
  -- reports the path or one above it.
  pub changed_paths-covers :
      (depth : ℕ) (old : Option ObjectId) (new : ObjectId) (out path : List Bytes)
      (a b : Option TreeEntry)
      → changed_paths db depth s old new ≡ ok out
      → entry_at old path ≡ ok a
      → entry_at (some new) path ≡ ok b
      → IsLeaf a
      → IsLeaf b
      → a ≢ b
      → Reported out [] path
  unfolding changed_paths
  changed_paths-covers depth old new out path a b e ea eb la lb d =
      diff_trees-Covering depth old (some new) [] out path a b e ea eb la lb d
