-- ===== src/Oplog/Verify/Legality/Moves.antt =====
-- A legal operation moves lines and entities only from where they are.
use tessra.Prelude.{
  ℕ, ◌+◌, ◌%◌, ◌^◌, ◌==◌, ==_iff, ◌≡◌, refl, ap, ◌∙◌, arith, Bool, true, false, ◌&&◌, not, List, [],
  ◌∷◌, Bytes, codes, All, Option, none, some, is_some, head?, eqb, eqb_iff, contains, lookup, inl,
  inr, ◌⊎◌, list_ord, nat_ord,
}
use mathlib.Core.Bool.{decide}
use tessra.Core.Result.{Result, ok, >>=-eq-ok}
use tessra.Core.Id.{EntityId, ObjectId}
use tessra.Core.Value.{Value}
use tessra.Core.Cbor.{decode, peek_tag}
use tessra.Oplog.View.Pointer.{Pointer}
use tessra.Oplog.View.Data.{LineState, View, Effect, Op}
use tessra.Oplog.View.Merge.{entity}
use tessra.Oplog.Capability.{reading}
use tessra.Oplog.Standard.Data.{Unmet}
use tessra.Oplog.Verify.Objects.{Objects, State, Revision, found, get_object, has_object, demand}
use tessra.Oplog.Verify.Scope.Inside.{demand-true, both_pass}
use tessra.Oplog.Verify.Landed.{line_head}
use tessra.Oplog.Verify.Legality.{
  Pointer-discrete, same_pointer, same_id, expected, is_empty, follows, legal_revision,
  legal_creation, on_head, advances, legal_object, legal_point, cited, is_history, line_standard,
  meets_standard, legal_landing, legal_advance, legal_move, legal, legal_all,
}

same_pointer_sound : (a b : Option Pointer) → same_pointer a b ≡ true → a ≡ b
unfolding same_pointer decide
same_pointer_sound none none h = refl
same_pointer_sound none (some b) h = cc
same_pointer_sound (some a) none h = cc
same_pointer_sound (some a) (some b) h = go (Pointer-discrete a b) h
  where
    go : (d : Dec (a ≡ b)) → decide d ≡ true → some a ≡ some b
    go (yes e) h = ap some e
    go (no n) h = cc

pub same_id_sound : (a b : Option ObjectId) → same_id a b ≡ true → a ≡ b
unfolding same_id
same_id_sound none none h = refl
same_id_sound none (some b) h = cc
same_id_sound (some a) none h = cc
same_id_sound (some a) (some b) h = ap some ((eqb_iff a b).0 h)

-- A revision of a change that is there succeeds its version, and a landed one only by a restack.
abbrev pub Follows : List ObjectId → Op → Revision → Option Pointer → Type 0
Follows landed op r (some (Pointer.id cur)) =
    (r.prev ≡ some cur) × (contains landed cur ≡ true → op.kind ≡ codes "restack")
Follows landed op r _ = Unit {0}

follows-Follows :
    (landed : List ObjectId) (op : Op) (r : Revision) (current : Option Pointer)
    → follows landed op r current ≡ ok tt
    → Follows landed op r current
unfolding follows
follows-Follows landed op r none e = tt
follows-Follows landed op r (some (Pointer.conflict c)) e = tt
follows-Follows landed op r (some (Pointer.id cur)) e =
    let test = not (contains landed cur && not (eqb op.kind (codes "restack"))) in
    let (h, e1) = both_pass (demand 7 test) (λ _. demand 7 (same_id r.prev (some cur))) e in
    (
      same_id_sound r.prev (some cur) (demand-true 7 _ e1),
      λ c.
          (eqb_iff op.kind (codes "restack")).0 (
            restack (contains landed cur) (eqb op.kind (codes "restack")) (demand-true 7 test h) c),
    )
  where
    restack : (x y : Bool) → not (x && not y) ≡ true → x ≡ true → y ≡ true
    restack x y h k = ground arith

-- The creation of a line.
abbrev pub Creates : Bool → Option EntityId → Option Value → ℕ → Type 0
Creates is_owner id from seq =
    (is_owner ≡ true) × (is_some id ≡ true) × (is_some from ≡ false) × (seq ≡ 0)

legal_creation-Creates :
    (is_owner : Bool) (id : Option EntityId) (from : Option Value) (seq : ℕ)
    → legal_creation is_owner id from seq ≡ ok tt
    → Creates is_owner id from seq
unfolding legal_creation
legal_creation-Creates is_owner id from seq e =
    let (h, e1) = both_pass (demand 7 is_owner) _ e in
    let k = demand-true 7 (is_some id && not (is_some from) && seq == 0) e1 in
    let (a, b, c) = parts (is_some id) (is_some from) (seq == 0) k in
    (demand-true 7 is_owner h, a, b, (==_iff seq 0).0 c)
  where
    parts : (x y z : Bool) → (x && not y && z) ≡ true → (x ≡ true) × (y ≡ false) × (z ≡ true)
    parts x y z h = ground arith

-- The coordinator moves a line from its head, by one number.
abbrev pub Advances : Op → LineState → Option Value → ℕ → Type 0
Advances op ls from seq =
    (ls.coordinator ≡ op.author) × (line_head ls ≡ expected from) × (seq ≡ (ls.seq + 1) % 2 ^ 64)

advances-Advances :
    (op : Op) (ls : LineState) (from : Option Value) (seq : ℕ)
    → advances op ls from seq ≡ ok tt
    → Advances op ls from seq
unfolding advances
advances-Advances op ls from seq e =
    let (h, e1) = both_pass (demand 7 (eqb ls.coordinator op.author)) _ e in
    let (k, e2) = both_pass (demand 7 (same_pointer (line_head ls) (expected from))) _ e1 in
    (
      (eqb_iff ls.coordinator op.author).0 (demand-true 7 _ h),
      same_pointer_sound (line_head ls) (expected from) (demand-true 7 _ k),
      (==_iff seq ((ls.seq + 1) % 2 ^ 64)).0 (demand-true 7 _ e2),
    )

module _ (db : Objects) (s : State db) (v : View) (op : Op) (is_owner : Bool) where
  cited-All :
      (attests : List ObjectId)
      → cited db s attests ≡ ok tt
      → All (λ a. has_object db s a ≡ ok true) attests
  unfolding cited
  cited-All [] e = tt
  cited-All (a ∷ attests) e =
      let (present, p, e1) = >>=-eq-ok (has_object db s a) _ e in
      let (h, e2) = both_pass (demand 7 present) _ e1 in
      (p ∙ ap ok (demand-true 7 present h), cited-All attests e2)

  module _
      (evaluate : State db
        → View
        → EntityId
        → ObjectId
        → Revision
        → List ObjectId
        → Result (List Unmet)) where
    -- The line has a standard of which no clause fails.
    abbrev pub MeetsStandard : LineState → ObjectId → Revision → List ObjectId → Type 0
    MeetsStandard ls to rev attests =
        (p : Option Pointer) × (standard : EntityId) × (reading (entity db.log.nodes v ls.id) s
          ≡ ok p)
        × (line_standard db s p ≡ ok standard)
        × (evaluate s v standard to rev attests ≡ ok [])

    -- The head is that of imported history, which sits on the head, or meets the standard.
    abbrev pub Lands : LineState → ObjectId → Revision → List ObjectId → Type 0
    Lands ls to rev attests =
        ((is_history db s v op is_owner attests rev ≡ ok true)
          × (on_head (line_head ls) (head? rev.parents) ≡ true))
        ⊎ MeetsStandard ls to rev attests

    is_empty-eq : (xs : List Unmet) → is_empty xs ≡ true → xs ≡ []
    is_empty-eq [] h = refl
    is_empty-eq (x ∷ xs) h = cc

    meets_standard-MeetsStandard :
        (ls : LineState) (to : ObjectId) (rev : Revision) (attests : List ObjectId)
        → meets_standard db evaluate s v ls to rev attests ≡ ok tt
        → MeetsStandard ls to rev attests
    unfolding meets_standard
    meets_standard-MeetsStandard ls to rev attests e =
        let (p, r, e1) = >>=-eq-ok (reading (entity db.log.nodes v ls.id) s) _ e in
        let (standard, l, e2) = >>=-eq-ok (line_standard db s p) _ e1 in
        let (unmet, u, e3) = >>=-eq-ok (evaluate s v standard to rev attests) _ e2 in
        (p, standard, r, l, u ∙ ap ok (is_empty-eq unmet (demand-true 7 (is_empty unmet) e3)))

    legal_landing-Lands :
        (ls : LineState) (to : ObjectId) (rev : Revision) (attests : List ObjectId) (history : Bool)
        → is_history db s v op is_owner attests rev ≡ ok history
        → legal_landing db evaluate s v ls to rev attests history ≡ ok tt
        → Lands ls to rev attests
    unfolding legal_landing
    legal_landing-Lands ls to rev attests true h e = inl (h, demand-true 7 _ e)
    legal_landing-Lands ls to rev attests false h e =
        inr (meets_standard-MeetsStandard ls to rev attests e)

    -- A line that is there is advanced, and one that is not is created.
    abbrev pub Moves :
        Option LineState
        → ObjectId
        → Revision
        → Option Value
        → ℕ
        → List ObjectId
        → Option EntityId
        → Type 0
    Moves none to rev from seq attests id = Creates is_owner id from seq
    Moves (some ls) to rev from seq attests id =
        Advances op ls from seq
        × All (λ a. has_object db s a ≡ ok true) attests
        × Lands ls to rev attests

    legal_move-Moves :
        (o : Option LineState) (to : ObjectId) (rev : Revision) (from : Option Value) (seq : ℕ)
        (attests : List ObjectId) (id : Option EntityId)
        → legal_move db evaluate s v op is_owner o to rev from seq attests id ≡ ok tt
        → Moves o to rev from seq attests id
    unfolding legal_move legal_advance
    legal_move-Moves none to rev from seq attests id e =
        legal_creation-Creates is_owner id from seq e
    legal_move-Moves (some ls) to rev from seq attests id e =
        let (h, e1) = both_pass (advances op ls from seq) _ e in
        let (c, e2) = both_pass (cited db s attests) _ e1 in
        let (history, i, e3) = >>=-eq-ok (is_history db s v op is_owner attests rev) _ e2 in
        (
          advances-Advances op ls from seq h,
          cited-All attests c,
          legal_landing-Lands ls to rev attests history i e3,
        )

    -- An entity is moved from where it is, and a revision of a change follows its version.
    abbrev pub Points : List ObjectId → EntityId → ObjectId → Option Value → Type 0
    Points landed x to from =
        (current : Option Pointer) × (reading (entity db.log.nodes v x) s ≡ ok current)
        × (current ≡ expected from)
        × ((bytes : Bytes)
            → db.get_bytes s to ≡ ok (some bytes)
            → peek_tag db.cbor bytes ≡ ok (codes "revision")
            → (r : Revision) × (decode db.cbor db.revision bytes ≡ ok r)
              × (r.id ≡ x)
              × Follows landed op r current)

    legal_object-revision :
        (landed : List ObjectId) (x : EntityId) (current : Option Pointer) (bytes : Bytes)
        → legal_object db s v landed op is_owner x current bytes (codes "revision") ≡ ok tt
        → (r : Revision) × (decode db.cbor db.revision bytes ≡ ok r)
          × (r.id ≡ x)
          × Follows landed op r current
    unfolding legal_object legal_revision eqb
    legal_object-revision landed x current bytes e =
        let (r, d, e1) = >>=-eq-ok (decode db.cbor db.revision bytes) _ e in
        let (i, f) = both_pass (demand 7 (eqb r.id x)) _ e1 in
        (
          r,
          d,
          (eqb_iff r.id x).0 (demand-true 7 (eqb r.id x) i),
          follows-Follows landed op r current f,
        )

    legal_point-Points :
        (landed : List ObjectId) (x : EntityId) (to : ObjectId) (from : Option Value)
        → legal_point db s v landed op is_owner x to from ≡ ok tt
        → Points landed x to from
    unfolding legal_point found
    legal_point-Points landed x to from e =
        let (current, r, e1) = >>=-eq-ok (reading (entity db.log.nodes v x) s) _ e in
        let (h, e2) = both_pass (demand 7 (same_pointer current (expected from))) _ e1 in
        (
          current,
          r,
          same_pointer_sound current (expected from) (demand-true 7 _ h),
          λ bytes g t. legal_object-revision landed x current bytes (rw (g, t) at e2),
        )

    -- What a legal effect does.
    abbrev pub EffectLegal : List ObjectId → Effect → Type 0
    EffectLegal landed (Effect.point x to from) = Points landed x to from
    EffectLegal landed (Effect.head line to from seq attests id) =
        (rev : Revision) × (get_object db db.revision s to ≡ ok rev)
        × Moves (lookup line v.lines) to rev from seq attests id
    EffectLegal landed (Effect.tomb o r) = op.kind ≡ codes "redact"
    EffectLegal landed (Effect.owner p) = is_owner ≡ true
    EffectLegal landed (Effect.unowner p) = is_owner ≡ true
    EffectLegal landed (Effect.coordinator line to) = is_owner ≡ true
    EffectLegal landed _ = Unit {0}

    legal-EffectLegal :
        (landed : List ObjectId) (e : Effect)
        → legal db evaluate s v landed op is_owner e ≡ ok tt
        → EffectLegal landed e
    unfolding legal
    legal-EffectLegal landed (Effect.point x to from) e = legal_point-Points landed x to from e
    legal-EffectLegal landed (Effect.head line to from seq attests id) e =
        let (rev, g, e1) = >>=-eq-ok (get_object db db.revision s to) _ e in
        (rev, g, legal_move-Moves (lookup line v.lines) to rev from seq attests id e1)
    legal-EffectLegal landed (Effect.tomb o r) e =
        (eqb_iff op.kind (codes "redact")).0 (demand-true 7 _ e)
    legal-EffectLegal landed (Effect.owner p) e = demand-true 7 is_owner e
    legal-EffectLegal landed (Effect.unowner p) e = demand-true 7 is_owner e
    legal-EffectLegal landed (Effect.coordinator line to) e = demand-true 7 is_owner e
    legal-EffectLegal landed (Effect.put o) e = tt
    legal-EffectLegal landed (Effect.unpoint x) e = tt
    legal-EffectLegal landed (Effect.propose r) e = tt
    legal-EffectLegal landed (Effect.unpropose r) e = tt
    legal-EffectLegal landed (Effect.claim c to) e = tt
    legal-EffectLegal landed (Effect.unclaim c) e = tt
    legal-EffectLegal landed (Effect.cap c) e = tt
    legal-EffectLegal landed (Effect.uncap c) e = tt
    legal-EffectLegal landed (Effect.revoke p) e = tt
    legal-EffectLegal landed (Effect.deploy t r) e = tt
    legal-EffectLegal landed (Effect.pause x) e = tt
    legal-EffectLegal landed (Effect.resume x) e = tt
    legal-EffectLegal landed (Effect.root r) e = tt
    legal-EffectLegal landed (Effect.unroot r) e = tt

    -- Every effect of a legal operation starts from what the parents' view holds.
    pub legal_all-All :
        (landed : List ObjectId) (es : List Effect)
        → legal_all db evaluate s v landed op is_owner es ≡ ok tt
        → All (EffectLegal landed) es
    unfolding legal_all
    legal_all-All landed [] e = tt
    legal_all-All landed (x ∷ es) e =
        let (h, e1) = both_pass (legal db evaluate s v landed op is_owner x) _ e in
        (legal-EffectLegal landed x h, legal_all-All landed es e1)
