-- ===== src/Oplog/Verify/Scope/Inside.antt =====
-- What a capability that authorizes an operation confines it to.
use tessra.Prelude.{
  ℕ, ◌≡◌, ◌≢◌, refl, sym, ap, ◌∙◌, subst, arith, Bool, true, false, ◌||◌, List, [], ◌∷◌, ◌++◌,
  Bytes, codes, All, Option, none, some, head?, eqb, eqb_iff, contains, lookup, Bool-cases, inl,
  inr, list_ord, nat_ord,
}
use tessra.Core.Result.{Result, ok, err, ◌>>=◌, >>=-eq-ok, ok-injective, Error}
use tessra.Core.Id.{EntityId, ObjectId}
use tessra.Core.Value.{Value}
use tessra.Core.Cbor.{decode, peek_tag}
use tessra.Oplog.Glob.{any_match}
use tessra.Oplog.View.Data.{LineState, View, Effect, Op}
use tessra.Oplog.Capability.{Capability}
use tessra.Oplog.Verify.Objects.{
  Objects, State, Revision, Snapshot, Memory, TreeEntry, found, get_object, demand,
}
use tessra.Oplog.Verify.Trees.{changed_paths}
use tessra.Oplog.Verify.Trees.Covers.{IsLeaf, written, entry_at, changed_paths-covers}
use tessra.Oplog.Verify.Scope.{
  ungated, is_governed, authorize_object, allowed, check_paths, paths_allowed, first_parent,
  old_root, check_root, check_roots, check_write_scope, authorize_line, authorize, authorize_all,
  check_authorizes,
}

pub demand-true : (step : ℕ) (b : Bool) → demand step b ≡ ok tt → b ≡ true
unfolding demand
demand-true step true e = refl
demand-true step false e = cc

-- A list that limits a capability names `x`.
abbrev pub Covered : Option (List Bytes) → Bytes → Type 0
Covered none x = Unit {0}
Covered (some xs) x = contains xs x ≡ true

allowed-Covered : (o : Option (List Bytes)) (x : Bytes) → allowed o x ≡ ok tt → Covered o x
unfolding allowed
allowed-Covered none x e = tt
allowed-Covered (some xs) x e = demand-true 6 (contains xs x) e

-- A step that returns nothing, then the rest.
pub both_pass :
    {A : Type 0} {r : A} (m : Result (Unit {0})) (k : Unit {0} → Result A)
    → (m >>= k) ≡ ok r
    → (m ≡ ok tt) × (k tt ≡ ok r)
both_pass m k e = let (t, h, h') = >>=-eq-ok m k e in (h, h')

check_paths-any_match :
    (scope changed : List Bytes)
    → check_paths scope changed ≡ ok tt
    → (p : Bytes) → contains changed p ≡ true
    → any_match scope p ≡ true
unfolding check_paths contains
check_paths-any_match scope [] e p c = absurd (cc)
check_paths-any_match scope (q ∷ qs) e p c =
    let (h, rest) = both_pass (demand 6 (any_match scope q)) (λ _. check_paths scope qs) e in
    elim (Bool-cases (eqb q p)) [
      | inl same ↦
          subst (λ x. any_match scope x ≡ true) ((eqb_iff q p).0 same)
            (demand-true 6 (any_match scope q) h)
      | inr other ↦ check_paths-any_match scope qs rest p (ground arith)
    ]

module _ (db : Objects) (depth : ℕ) (s : State db) (cap : Capability) where
  -- Where two trees differ at a path, neither entry being a directory, the scope matches the path or
  -- one above it.
  abbrev pub Confined : Option ObjectId → ObjectId → Type 0
  Confined old new =
      (scope : List Bytes) (path : List Bytes) (a b : Option TreeEntry)
      → cap.write.paths ≡ some scope
      → entry_at db s old path ≡ ok a
      → entry_at db s (some new) path ≡ ok b
      → IsLeaf a
      → IsLeaf b
      → a ≢ b
      → (front : List Bytes) × (back : List Bytes) × (path ≡ front ++ back)
        × (any_match scope (written [] front) ≡ true)

  -- A root of a revision, against the same root of its first parent.
  abbrev pub RootConfined : Option Revision → Bytes × ObjectId → Type 0
  RootConfined parent (root, snap_id) =
      Covered cap.write.roots root
      × (snap : Snapshot) × (old : Option ObjectId) × (get_object db db.snapshot s snap_id
          ≡ ok snap)
      × (old_root db depth s parent root ≡ ok old)
      × Confined old snap.root

  paths_allowed-any_match :
      (changed scope : List Bytes)
      → cap.write.paths ≡ some scope
      → paths_allowed cap.write.paths changed ≡ ok tt
      → (p : Bytes) → contains changed p ≡ true
      → any_match scope p ≡ true
  unfolding paths_allowed
  paths_allowed-any_match changed scope e h p c =
      check_paths-any_match scope changed (ap (λ o. paths_allowed o changed) (sym e) ∙ h) p c

  check_root-RootConfined :
      (parent : Option Revision) (root : Bytes) (snap_id : ObjectId)
      → check_root db depth s cap parent root snap_id ≡ ok tt
      → RootConfined parent (root, snap_id)
  unfolding check_root
  check_root-RootConfined parent root snap_id e =
      let (h, e1) = both_pass (allowed cap.write.roots root) _ e in
      let (snap, l, e2) = >>=-eq-ok (get_object db db.snapshot s snap_id) _ e1 in
      let (old, o, e3) = >>=-eq-ok (old_root db depth s parent root) _ e2 in
      let (changed, c, e4) = >>=-eq-ok (changed_paths db depth s old snap.root) _ e3 in
      (
        allowed-Covered cap.write.roots root h,
        snap,
        old,
        l,
        o,
        λ scope path a b w ea eb la lb d.
            let (front, back, p, r) =
              changed_paths-covers db s depth old snap.root changed path a b c ea eb la lb d in
            (front, back, p, paths_allowed-any_match changed scope w e4 (written [] front) r),
      )

  check_roots-All :
      (parent : Option Revision) (snapshots : List (Bytes × ObjectId))
      → check_roots db depth s cap parent snapshots ≡ ok tt
      → All (RootConfined parent) snapshots
  unfolding check_roots
  check_roots-All parent [] e = tt
  check_roots-All parent ((root, snap) ∷ rest) e =
      let (h, e1) = both_pass (check_root db depth s cap parent root snap) _ e in
      (check_root-RootConfined parent root snap h, check_roots-All parent rest e1)

  -- A revision whose every root is confined, against its first parent.
  abbrev pub RevisionConfined : ObjectId → Type 0
  RevisionConfined rev_id =
      (rev : Revision) × (parent : Option Revision) × (get_object db db.revision s rev_id ≡ ok rev)
      × (first_parent db depth s (head? rev.parents) ≡ ok parent)
      × All (RootConfined parent) rev.snapshots

  check_write_scope-RevisionConfined :
      (rev_id : ObjectId)
      → check_write_scope db depth s cap rev_id ≡ ok tt
      → RevisionConfined rev_id
  unfolding check_write_scope
  check_write_scope-RevisionConfined rev_id e =
      let (rev, l, e1) = >>=-eq-ok (get_object db db.revision s rev_id) _ e in
      let (parent, p, e2) = >>=-eq-ok (first_parent db depth s (head? rev.parents)) _ e1 in
      (rev, parent, l, p, check_roots-All parent rev.snapshots e2)

  abbrev pub LineCovered : Option LineState → Type 0
  LineCovered none = ⊥
  LineCovered (some ls) = Covered cap.write.lines ls.id

  authorize_line-LineCovered :
      (o : Option LineState) → authorize_line db depth cap o ≡ ok tt → LineCovered o
  unfolding authorize_line
  authorize_line-LineCovered none e = cc
  authorize_line-LineCovered (some ls) e = allowed-Covered cap.write.lines ls.id e

  -- An entity is pointed to an object of a tag; a memory has a scope that is covered, and what is
  -- governed takes the verb of its tag.
  abbrev pub PointCovered : ObjectId → Type 0
  PointCovered to =
      (bytes : Bytes) × (tag : Bytes) × (db.get_bytes s to ≡ ok (some bytes))
      × (peek_tag db.cbor bytes ≡ ok tag)
      × (tag ≡ codes "memory"
          → (m : Memory) × (decode db.cbor db.memory bytes ≡ ok m)
            × Covered cap.write.memory_scopes m.scope_kind)
      × (tag ≢ codes "memory" → is_governed tag ≡ true → contains cap.verbs tag ≡ true)

  found-some :
      (to : ObjectId) (r : Option Bytes) (bytes : Bytes) → found to r ≡ ok bytes → r ≡ some bytes
  unfolding found
  found-some to none bytes e = cc
  found-some to (some b) bytes e = ap some (ok-injective e)

  authorize_memory :
      (bytes tag : Bytes)
      → authorize_object db depth cap bytes tag ≡ ok tt
      → tag ≡ codes "memory"
      → (m : Memory) × (decode db.cbor db.memory bytes ≡ ok m)
        × Covered cap.write.memory_scopes m.scope_kind
  unfolding authorize_object
  authorize_memory bytes tag e is_memory =
      let same = (eqb_iff tag (codes "memory")).1 is_memory in
      let (m, h, e1) = >>=-eq-ok (decode db.cbor db.memory bytes) _ (rw same at e) in
      (m, h, allowed-Covered cap.write.memory_scopes m.scope_kind e1)

  authorize_governed :
      (bytes tag : Bytes)
      → authorize_object db depth cap bytes tag ≡ ok tt
      → tag ≢ codes "memory"
      → is_governed tag ≡ true
      → contains cap.verbs tag ≡ true
  unfolding authorize_object
  authorize_governed bytes tag e not_memory governed =
      elim (Bool-cases (eqb tag (codes "memory"))) [
        | inl same ↦ absurd (not_memory ((eqb_iff tag (codes "memory")).0 same))
        | inr other ↦ demand-true 6 (contains cap.verbs tag) (rw (other, governed) at e)
      ]

  authorize-PointCovered :
      (view : View) (x : EntityId) (to : ObjectId) (from : Option Value)
      → authorize db depth s view cap (Effect.point x to from) ≡ ok tt
      → PointCovered to
  unfolding authorize
  authorize-PointCovered view x to from e =
      let (r, g, e1) = >>=-eq-ok (db.get_bytes s to) _ e in
      let (bytes, f, e2) = >>=-eq-ok (found to r) _ e1 in
      let (tag, t, e3) = >>=-eq-ok (peek_tag db.cbor bytes) _ e2 in
      (
        bytes,
        tag,
        g ∙ ap ok (found-some to r bytes f),
        t,
        authorize_memory bytes tag e3,
        authorize_governed bytes tag e3,
      )

  -- What an effect of an author who is no owner is confined to.
  abbrev pub EffectConfined : View → Effect → Type 0
  EffectConfined view (Effect.propose rev) =
      RevisionConfined rev × Covered cap.write.stages (codes "proposed")
  EffectConfined view (Effect.head line to from seq attests id) =
      RevisionConfined to
      × LineCovered (lookup line view.lines)
      × Covered cap.write.stages (codes "landed")
  EffectConfined view (Effect.deploy target release) = Covered cap.write.targets target
  EffectConfined view (Effect.point x to from) = PointCovered to
  EffectConfined view (Effect.owner p) = ⊥
  EffectConfined view (Effect.unowner p) = ⊥
  EffectConfined view (Effect.coordinator line to) = ⊥
  EffectConfined view (Effect.root r) = ⊥
  EffectConfined view (Effect.unroot r) = ⊥
  EffectConfined view (Effect.revoke p) = contains cap.verbs (codes "revoke") ≡ true
  EffectConfined view (Effect.tomb o r) = contains cap.verbs (codes "redact") ≡ true
  EffectConfined view _ = Unit {0}

  refused : {A : Type 0} → ◌≡◌ {A = Result (Unit {0})} (err (Error.rejected 6)) (ok tt) → A
  refused e = absurd (no e)
    where
      no : ◌≡◌ {A = Result (Unit {0})} (err (Error.rejected 6)) (ok tt) → ⊥
      no e = cc

  authorize-EffectConfined :
      (view : View) (e : Effect) → authorize db depth s view cap e ≡ ok tt → EffectConfined view e
  unfolding authorize
  authorize-EffectConfined view (Effect.propose rev) e =
      let (h, e1) = both_pass (check_write_scope db depth s cap rev) _ e in
      (
        check_write_scope-RevisionConfined rev h,
        allowed-Covered cap.write.stages (codes "proposed") e1,
      )
  authorize-EffectConfined view (Effect.head line to from seq attests id) e =
      let (h, e1) = both_pass (check_write_scope db depth s cap to) _ e in
      let (l, e2) = both_pass (authorize_line db depth cap (lookup line view.lines)) _ e1 in
      (
        check_write_scope-RevisionConfined to h,
        authorize_line-LineCovered (lookup line view.lines) l,
        allowed-Covered cap.write.stages (codes "landed") e2,
      )
  authorize-EffectConfined view (Effect.deploy target release) e =
      allowed-Covered cap.write.targets target e
  authorize-EffectConfined view (Effect.owner p) e = refused e
  authorize-EffectConfined view (Effect.unowner p) e = refused e
  authorize-EffectConfined view (Effect.coordinator line to) e = refused e
  authorize-EffectConfined view (Effect.root r) e = refused e
  authorize-EffectConfined view (Effect.unroot r) e = refused e
  authorize-EffectConfined view (Effect.revoke p) e =
      demand-true 6 (contains cap.verbs (codes "revoke")) e
  authorize-EffectConfined view (Effect.tomb o r) e =
      demand-true 6 (contains cap.verbs (codes "redact")) e
  authorize-EffectConfined view (Effect.put o) e = tt
  authorize-EffectConfined view (Effect.point x to from) e = authorize-PointCovered view x to from e
  authorize-EffectConfined view (Effect.unpoint x) e = tt
  authorize-EffectConfined view (Effect.unpropose r) e = tt
  authorize-EffectConfined view (Effect.claim c to) e = tt
  authorize-EffectConfined view (Effect.unclaim c) e = tt
  authorize-EffectConfined view (Effect.cap c) e = tt
  authorize-EffectConfined view (Effect.uncap c) e = tt
  authorize-EffectConfined view (Effect.pause x) e = tt
  authorize-EffectConfined view (Effect.resume x) e = tt

  authorize_all-All :
      (view : View) (es : List Effect)
      → authorize_all db depth s view cap es ≡ ok tt
      → All (EffectConfined view) es
  unfolding authorize_all
  authorize_all-All view [] e = tt
  authorize_all-All view (x ∷ es) e =
      let (h, e1) = both_pass (authorize db depth s view cap x) _ e in
      (authorize-EffectConfined view x h, authorize_all-All view es e1)

  pub check_authorizes-All :
      (view : View) (op : Op)
      → check_authorizes db depth s view cap op ≡ ok tt
      → ((contains ungated op.kind || contains cap.verbs op.kind) ≡ true)
        × All (EffectConfined view) op.effects
  unfolding check_authorizes
  check_authorizes-All view op e =
      let (h, e1) =
        both_pass (demand 6 (contains ungated op.kind || contains cap.verbs op.kind)) _ e in
      (demand-true 6 _ h, authorize_all-All view op.effects e1)
