-- ===== src/Oplog/Standard/Checks/Trust.antt =====
-- Whose attestations satisfy a predicate.
use tessra.Prelude.{
  ◌≡◌, refl, sym, ap, ◌∙◌, arith, Bool, true, false, ◌&&◌, ◌||◌, not, List, [], ◌∷◌, Bytes, codes,
  All, Option, none, some, any, filter, eqb, eqb_iff, contains, Bool-cases, inl, inr, ◌⊎◌, list_ord,
  nat_ord, contains-append,
}
use tessra.Core.Id.{ObjectId}
use tessra.Oplog.Standard.Data.{Node, Predicate, is_none}
use tessra.Oplog.Standard.Context.{
  Ctx, Loaded, trusted_attesters, changed_units, new_tests, is_test_kind, truthy, trusted, counts,
  covered_bodies, uncovered_by_bodies, or_empty, on_revision, subject_attested, selected,
}
use tessra.Oplog.Standard.Checks.{
  arg, is_set, text_of, name_or_empty, is_coverable, is_empty_list, attested_by_bodies,
  units_attested, attested, holds_attest, is_human, approves, approver, holds_approved,
}

-- Some element of a list.
abbrev pub Some : (Loaded → Type 0) → List Loaded → Type 0
Some P [] = ⊥
Some P (l ∷ ls) = P l ⊎ Some P ls

any-Some :
    (P : Loaded → Type 0) (p : Loaded → Bool) (ls : List Loaded)
    → ((l : Loaded) → p l ≡ true → P l)
    → any p ls ≡ true
    → Some P ls
unfolding any
any-Some P p [] f h = cc
any-Some P p (l ∷ ls) f h = elim (Bool-cases (p l)) [
  | inl y ↦ inl (f l y)
  | inr n ↦ inr (any-Some P p ls f (rw n at h))
]

-- A true attestation of a kind, signed by a principal of a kind that is trusted.
abbrev IsTrusted : Bytes → Loaded → Type 0
IsTrusted kind l =
    (l.att.kind ≡ kind)
    × (truthy l.att.result ≡ true)
    × ((k : Bytes) × (l.signer_kind ≡ some k) × (contains trusted_attesters k ≡ true))

counts-IsTrusted : (kind : Bytes) (l : Loaded) → counts kind false l ≡ true → IsTrusted kind l
unfolding counts trusted
counts-IsTrusted kind l h =
    let (a, b, c) = parts (eqb l.att.kind kind) (truthy l.att.result) (trusted l false) h in
    ((eqb_iff l.att.kind kind).0 a, b, signer l.signer_kind c)
  where
    parts : (x y z : Bool) → (x && y && z) ≡ true → (x ≡ true) × (y ≡ true) × (z ≡ true)
    parts x y z h = ground arith

    signer :
        (o : Option Bytes)
        → trusted (record l { signer_kind = o }) false ≡ true
        → (k : Bytes) × (o ≡ some k) × (contains trusted_attesters k ≡ true)
    signer none h = cc
    signer (some k) h = (k, refl, h)

-- The body of a unit is named by an attestation of the kind that is trusted.
abbrev IsNamed : Bytes → List Loaded → Node → Type 0
IsNamed kind ls u =
    Some (λ l. IsTrusted kind l × (contains (or_empty l.att.bodies) u.body ≡ true)) ls

covered_bodies-Some :
    (kind : Bytes) (ls : List Loaded) (b : ObjectId)
    → contains (covered_bodies kind false ls) b ≡ true
    → Some (λ l. IsTrusted kind l × (contains (or_empty l.att.bodies) b ≡ true)) ls
unfolding covered_bodies
covered_bodies-Some kind [] b h = unfold contains in cc
covered_bodies-Some kind (l ∷ ls) b h = elim (Bool-cases (counts kind false l)) [
  | inr n ↦ inr (covered_bodies-Some kind ls b (rw n at h))
  | inl y ↦
      let split =
        sym (contains-append (or_empty l.att.bodies) (covered_bodies kind false ls) b)
        ∙ (rw y at h) in
      elim (Bool-cases (contains (or_empty l.att.bodies) b)) [
        | inl here ↦ inl (counts-IsTrusted kind l y, here)
        | inr later ↦ inr (covered_bodies-Some kind ls b (rw later at split))
      ]
]

none_uncovered :
    (kind : Bytes) (ls : List Loaded) (units : List Node)
    → is_empty_list (filter (λ u. not (contains (covered_bodies kind false ls) u.body)) units)
      ≡ true
    → All (IsNamed kind ls) units
unfolding filter
none_uncovered kind ls [] h = tt
none_uncovered kind ls (u ∷ us) h =
    elim (Bool-cases (contains (covered_bodies kind false ls) u.body)) [
      | inl c ↦ (covered_bodies-Some kind ls u.body c, none_uncovered kind ls us (rw c at h))
      | inr n ↦ absurd (contra (rw n at h))
    ]
  where
    contra : false ≡ true → ⊥
    contra h = cc

module _ (ctx : Ctx) (kind : Bytes) where
  -- Every unit of a list that is known is named.
  abbrev UnitsNamed : Option (List Node) → Type 0
  UnitsNamed units = (us : List Node) × (units ≡ some us) × All (IsNamed kind ctx.attests) us

  -- There are such units and every one is named.
  abbrev SomeNamed : Option (List Node) → Type 0
  SomeNamed units =
      (us : List Node) × (units ≡ some us)
      × (is_empty_list us ≡ false)
      × All (IsNamed kind ctx.attests) us

  -- A trusted attestation names the revision.
  abbrev RevisionNamed : Type 0
  RevisionNamed = Some (λ l. IsTrusted kind l × (on_revision ctx l ≡ true)) ctx.attests

  -- By the argument `for`.
  abbrev pub Attested : Option Bytes → Type 0
  Attested none =
      RevisionNamed
      ⊎ SomeNamed (selected (λ n. is_coverable n || is_test_kind n.kind) (changed_units ctx))
  Attested (some scope) =
      ((scope ≡ codes "new_tests") × UnitsNamed (new_tests ctx))
      ⊎ ((scope ≡ codes "changed_nodes") × UnitsNamed (selected is_coverable (changed_units ctx)))

  units_attested-UnitsNamed :
      (units : Option (List Node)) → units_attested ctx kind false units ≡ true → UnitsNamed units
  unfolding units_attested uncovered_by_bodies
  units_attested-UnitsNamed none h = cc
  units_attested-UnitsNamed (some us) h = (us, refl, none_uncovered kind ctx.attests us h)

  attested_by_bodies-SomeNamed :
      (units : Option (List Node))
      → attested_by_bodies ctx kind false units ≡ true
      → SomeNamed (selected (λ n. is_coverable n || is_test_kind n.kind) units)
  unfolding attested_by_bodies uncovered_by_bodies
  attested_by_bodies-SomeNamed none h = cc
  attested_by_bodies-SomeNamed (some changed) h =
      let us = filter (λ n. is_coverable n || is_test_kind n.kind) changed in
      (
        us,
        refl,
        first (is_empty_list us) _ h,
        none_uncovered kind ctx.attests us (second (not (is_empty_list us)) _ h),
      )
    where
      first : (x y : Bool) → (not x && y) ≡ true → x ≡ false
      first x y h = ground arith

      second : (x y : Bool) → (x && y) ≡ true → y ≡ true
      second x y h = ground arith

  subject_attested-RevisionNamed : subject_attested ctx kind false ≡ true → RevisionNamed
  unfolding subject_attested
  subject_attested-RevisionNamed h =
      any-Some _ (λ l. counts kind false l && on_revision ctx l) ctx.attests
        (λ l c.
          let (a, b) = parts (counts kind false l) (on_revision ctx l) c in
          (counts-IsTrusted kind l a, b))
        h
    where
      parts : (x y : Bool) → (x && y) ≡ true → (x ≡ true) × (y ≡ true)
      parts x y h = ground arith

  attested-Attested : (o : Option Bytes) → attested ctx kind false o ≡ true → Attested o
  unfolding attested
  attested-Attested none h = elim (Bool-cases (subject_attested ctx kind false)) [
    | inl y ↦ inl (subject_attested-RevisionNamed y)
    | inr n ↦ inr (attested_by_bodies-SomeNamed (changed_units ctx) (rw n at h))
  ]
  attested-Attested (some scope) h = elim (Bool-cases (eqb scope (codes "new_tests"))) [
    | inl y ↦ inl (
      (eqb_iff scope (codes "new_tests")).0 y,
      units_attested-UnitsNamed (new_tests ctx) (rw y at h),
    )
    | inr n ↦ elim (Bool-cases (eqb scope (codes "changed_nodes"))) [
      | inl c ↦ inr (
        (eqb_iff scope (codes "changed_nodes")).0 c,
        units_attested-UnitsNamed (selected is_coverable (changed_units ctx)) (rw (n, c) at h),
      )
      | inr d ↦ absurd (contra (rw (n, d) at h))
    ]
  ]
    where
      contra : false ≡ true → ⊥
      contra h = cc

-- An `attest` predicate that does not allow the author's own holds only by true attestations of its kind
-- whose signers are of trusted kinds: one names the revision, or, by the argument `for`, they name the
-- bodies of all changed units that a test could cover or of all new tests, where the indexes are known.
pub holds_attest-Attested :
    (ctx : Ctx) (p : Predicate)
    → is_set (arg p (codes "self")) ≡ false
    → holds_attest ctx p ≡ true
    → Attested ctx (name_or_empty p) (text_of (arg p (codes "for")))
unfolding holds_attest
holds_attest-Attested ctx p others h =
    attested-Attested ctx (name_or_empty p) (text_of (arg p (codes "for"))) (rw others at h)

-- A true approval of the revision, signed by a human, without a runner where it is to be signed by key.
abbrev pub IsApproval : Ctx → Bool → Loaded → Type 0
IsApproval ctx keysigned l =
    (l.att.kind ≡ codes "approval.human")
    × (truthy l.att.result ≡ true)
    × (l.signer_kind ≡ some (codes "human"))
    × (on_revision ctx l ≡ true)
    × (keysigned ≡ true → is_none l.att.runner ≡ true)

-- An `approved` predicate holds only by a true approval of the revision that a human signed, without a
-- runner where it asks for a signature by key.
pub holds_approved-Some :
    (ctx : Ctx) (p : Predicate)
    → holds_approved ctx p ≡ true
    → Some (IsApproval ctx (is_set (arg p (codes "keysigned")))) ctx.attests
unfolding holds_approved
holds_approved-Some ctx p h =
    any-Some _ (approves ctx (is_set (arg p (codes "keysigned")))) ctx.attests approval
      (second (eqb (approver p.name) (codes "human")) _ h)
  where
    second : (x y : Bool) → (x && y) ≡ true → y ≡ true
    second x y h = ground arith

    parts :
        (x y z w v : Bool)
        → (x && y && z && w && v) ≡ true
        → (x ≡ true) × (y ≡ true) × (z ≡ true) × (w ≡ true) × (v ≡ true)
    parts x y z w v h = ground arith

    runner : (k r : Bool) → (not k || r) ≡ true → k ≡ true → r ≡ true
    runner k r h e = ground arith

    human : (o : Option Bytes) → is_human o ≡ true → o ≡ some (codes "human")
    human none h = cc
    human (some k) h = ap some ((eqb_iff k (codes "human")).0 h)

    approval :
        (l : Loaded)
        → approves ctx (is_set (arg p (codes "keysigned"))) l ≡ true
        → IsApproval ctx (is_set (arg p (codes "keysigned"))) l
    approval l h =
        let (a, b, c, d, e) =
          parts (eqb l.att.kind (codes "approval.human")) (truthy l.att.result)
            (is_human l.signer_kind)
            (not (is_set (arg p (codes "keysigned"))) || is_none l.att.runner) (on_revision ctx l)
            (unfold approves in h) in
        (
          (eqb_iff l.att.kind (codes "approval.human")).0 a,
          b,
          human l.signer_kind c,
          e,
          runner (is_set (arg p (codes "keysigned"))) (is_none l.att.runner) d,
        )
