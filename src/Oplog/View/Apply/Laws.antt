-- ===== src/Oplog/View/Apply/Laws.antt =====
-- What applying effects keeps, and what a later read sees.
use tessra.Prelude.{
  ◌≡◌, ◌≢◌, refl, subst, ap, sym, ◌∙◌, Bool, true, false, List, [], ◌∷◌, ◌++◌, Bytes, Option, none,
  some,
}
use tessra.Prelude.{
  if◌then◌else◌, eqb, contains, insert, sort-push, IsSorted, insert-IsSorted, remove-IsSorted,
}
use tessra.Prelude.{
  IsSorted-ext, contains-insert, eqb_iff, Bool-cases, inl, inr, list_ord, nat_ord, lookup, any,
}
use tessra.Core.Result.{Result, ok, err, ok-injective}
use tessra.Core.State.{M, ret, ◌>>=◌, lift, >>=-eq-ok}
use tessra.Core.Id.{EntityId, ObjectId}
use tessra.Core.Trie.Node.{TrieValue}
use tessra.Core.Trie.Ops.Store.{NodeStore}
use tessra.Core.Trie.Ops
use tessra.Oplog.View.Parts.{pauses, has_scope}
use tessra.Oplog.View.Data.{View, LineState, PauseState, Effect}
use tessra.Oplog.View.Apply.{
  add_sorted, add_pause, drop_pause, some_pauses, set_coordinator, moved_line, with_line,
  apply_head, apply_effect, apply,
}

-- A vector that is a set in order stays one: `add_sorted` is the set's insertion.
add_sorted-insert : (x : Bytes) (xs : List Bytes) → IsSorted xs → add_sorted x xs ≡ insert x xs
unfolding add_sorted
add_sorted-insert x xs h = elim (Bool-cases (contains xs x)) [
  | inl e ↦ rw e (IsSorted-ext xs (insert x xs) h (insert-IsSorted x xs h) λ b. present e b)
  | inr n ↦ rw n (sort-push xs x h n)
]
  where
    present : contains xs x ≡ true → (b : Bytes) → contains xs b ≡ contains (insert x xs) b
    present e b = sym (
        contains-insert x xs b ∙ elim (Bool-cases (eqb x b)) [
          | inl same ↦ rw same (sym (ap (λ y. contains xs y) (sym ((eqb_iff x b).0 same)) ∙ e))
          | inr other ↦ rw other
        ])

-- The owners and the roots are in order without duplicates, and a list of pauses is not empty.
abbrev pub IsTidy : View → Type 0
IsTidy v = IsSorted v.owners × IsSorted v.roots × (v.paused ≢ some [])

filled-not_empty : (p : PauseState) (ps : List PauseState) → some (p ∷ ps) ≢ some []
filled-not_empty p ps e = cc

none-not_empty : ◌≢◌ {A = Option (List PauseState)} none (some [])
none-not_empty e = cc

some_pauses-not_empty : (ps : List PauseState) → some_pauses ps ≢ some []
unfolding some_pauses
some_pauses-not_empty [] = none-not_empty
some_pauses-not_empty (p ∷ ps) = filled-not_empty p ps

module _ {S A B : Type 0} where
  returned_from :
      (r : Result (A × S)) (f : A → B) (s' : S) (b : B)
      → elim r as (λ _. Result (B × S)) [ ok (a, s) ↦ ok (f a, s) | err e ↦ err e ] ≡ ok (b, s')
      → (a : A) × (b ≡ f a)
  returned_from (ok (a, s)) f s' b e = (a, sym (ap (λ p. p.0) (ok-injective e)))
  returned_from (err x) f s' b e = absurd (err-ok e)
    where
      err-ok : {p : B × S} → err x ≡ ok p → ⊥
      err-ok e = cc

  -- What a computation that ends in a plain result returns.
  returned :
      (m : M S A) (f : A → B) (s s' : S) (b : B)
      → (m >>= λ a. ret (f a)) s ≡ ok (b, s')
      → (a : A) × (b ≡ f a)
  returned m f s s' b e = returned_from (m s) f s' b e

add_sorted-IsSorted : (x : Bytes) (xs : List Bytes) → IsSorted xs → IsSorted (add_sorted x xs)
add_sorted-IsSorted x xs h = rw (add_sorted-insert x xs h) (insert-IsSorted x xs h)

chosen :
    (b : Bool) (q : PauseState) (xs ys : List PauseState)
    → some (if b then q ∷ xs else q ∷ ys) ≢ some []
chosen true q xs ys = filled-not_empty q xs
chosen false q xs ys = filled-not_empty q ys

add_pause-not_empty :
    (o : Option (List PauseState)) (p : PauseState) → o ≢ some [] → add_pause o p ≢ some []
unfolding add_pause pauses has_scope any
add_pause-not_empty none p h = filled-not_empty p []
add_pause-not_empty (some []) p h = absurd (h refl)
add_pause-not_empty (some (q ∷ qs)) p h = chosen _ q qs (qs ++ p ∷ [])

drop_pause-not_empty : (o : Option (List PauseState)) (scope : Bytes) → drop_pause o scope ≢ some []
unfolding drop_pause
drop_pause-not_empty none scope = none-not_empty
drop_pause-not_empty (some ps) scope = some_pauses-not_empty _

with_line-IsTidy :
    (v : View) (line : Bytes) (r : Result LineState) (v' : View)
    → with_line v line r ≡ ok v'
    → IsTidy v
    → IsTidy v'
unfolding with_line
with_line-IsTidy v line (ok ls) v' e h = subst IsTidy (ok-injective e) h
with_line-IsTidy v line (err x) v' e h = absurd (err-ok e)
  where
    err-ok : err x ≡ ok v' → ⊥
    err-ok e = cc

set_coordinator-IsTidy :
    (o : Option LineState) (line : Bytes) (to : EntityId) (v : View)
    → IsTidy v
    → IsTidy (set_coordinator o line to v)
unfolding set_coordinator
set_coordinator-IsTidy none line to v h = h
set_coordinator-IsTidy (some ls) line to v h = h

module _ (store : NodeStore) where
  open store use {State}

  lifted : (r : Result View) (s s' : State) (v' : View) → lift r s ≡ ok (v', s') → r ≡ ok v'
  lifted (ok v) s s' v' e = ap (λ p. ok (p.0)) (ok-injective e)
  lifted (err x) s s' v' e = cc

  kept :
      (m : M State ObjectId) (f : ObjectId → View) (s s' : State) (v' : View)
      → (m >>= λ r. ret (f r)) s ≡ ok (v', s')
      → ((r : ObjectId) → IsTidy (f r))
      → IsTidy v'
  kept m f s s' v' e h = let (r, q) = returned m f s s' v' e in subst IsTidy (sym q) (h r)

  plain : (v : View) (s s' : State) (v' : View) → ret v s ≡ ok (v', s') → IsTidy v → IsTidy v'
  plain v s s' v' e h = subst IsTidy (ap (λ p. p.0) (ok-injective e)) h

  apply_effect-IsTidy :
      (parent : Option ObjectId) (v v' : View) (e : Effect) (s s' : State)
      → apply_effect store parent v e s ≡ ok (v', s')
      → IsTidy v
      → IsTidy v'
  unfolding apply_effect
  apply_effect-IsTidy parent v v' (Effect.put i) s s' r h = plain v s s' v' r h
  apply_effect-IsTidy parent v v' (Effect.point e to from) s s' r h =
      kept (Ops.insert store v.entities e (TrieValue.id to)) (λ i. record v { entities = i }) s s'
        v' r λ i. h
  apply_effect-IsTidy parent v v' (Effect.unpoint e) s s' r h =
      kept (Ops.remove store v.entities e) (λ i. record v { entities = i }) s s' v' r λ i. h
  apply_effect-IsTidy parent v v' (Effect.head line to from seq attests id) s s' r h =
      with_line-IsTidy v line (moved_line v.owners (lookup line v.lines) to seq id) v'
        (lifted (apply_head v line to seq id) s s' v' r) h
  apply_effect-IsTidy parent v v' (Effect.propose rev) s s' r h =
      kept (Ops.insert store v.proposed rev TrieValue.set) (λ i. record v { proposed = i }) s s' v'
        r λ i. h
  apply_effect-IsTidy parent v v' (Effect.unpropose rev) s s' r h =
      kept (Ops.remove store v.proposed rev) (λ i. record v { proposed = i }) s s' v' r λ i. h
  apply_effect-IsTidy parent v v' (Effect.claim c to) s s' r h =
      kept (Ops.insert store v.claims c (TrieValue.id to)) (λ i. record v { claims = i }) s s' v' r
        λ i. h
  apply_effect-IsTidy parent v v' (Effect.unclaim c) s s' r h =
      kept (Ops.remove store v.claims c) (λ i. record v { claims = i }) s s' v' r λ i. h
  apply_effect-IsTidy parent v v' (Effect.cap c) s s' r h =
      kept (Ops.insert store v.caps c TrieValue.set) (λ i. record v { caps = i }) s s' v' r λ i. h
  apply_effect-IsTidy parent v v' (Effect.uncap c) s s' r h =
      kept (Ops.remove store v.caps c) (λ i. record v { caps = i }) s s' v' r λ i. h
  apply_effect-IsTidy parent v v' (Effect.revoke p) s s' r h =
      kept (Ops.insert store v.revoked p TrieValue.set) (λ i. record v { revoked = i }) s s' v' r
        λ i. h
  apply_effect-IsTidy parent v v' (Effect.tomb of t) s s' r h =
      kept (Ops.insert store v.tombstoned of TrieValue.set) (λ i. record v { tombstoned = i }) s s'
        v' r λ i. h
  apply_effect-IsTidy parent v v' (Effect.deploy target to) s s' r h = plain _ s s' v' r h
  apply_effect-IsTidy parent v v' (Effect.pause scope) s s' r (ho, hr, hp) =
      plain _ s s' v' r (ho, hr, add_pause-not_empty v.paused _ hp)
  apply_effect-IsTidy parent v v' (Effect.resume scope) s s' r (ho, hr, hp) =
      plain _ s s' v' r (ho, hr, drop_pause-not_empty v.paused scope)
  apply_effect-IsTidy parent v v' (Effect.owner p) s s' r (ho, hr, hp) =
      plain _ s s' v' r (add_sorted-IsSorted p v.owners ho, hr, hp)
  apply_effect-IsTidy parent v v' (Effect.unowner p) s s' r (ho, hr, hp) =
      plain _ s s' v' r (remove-IsSorted p v.owners ho, hr, hp)
  apply_effect-IsTidy parent v v' (Effect.root name) s s' r (ho, hr, hp) =
      plain _ s s' v' r (ho, add_sorted-IsSorted name v.roots hr, hp)
  apply_effect-IsTidy parent v v' (Effect.unroot name) s s' r (ho, hr, hp) =
      plain _ s s' v' r (ho, remove-IsSorted name v.roots hr, hp)
  apply_effect-IsTidy parent v v' (Effect.coordinator line to) s s' r h =
      plain _ s s' v' r (set_coordinator-IsTidy (lookup line v.lines) line to v h)

  -- Every list of effects that applies keeps the owners and the roots in order and without
  -- duplicates, and no list of pauses is left empty.
  pub apply-IsTidy :
      (v v' : View) (es : List Effect) (parent : Option ObjectId) (s s' : State)
      → apply store v es parent s ≡ ok (v', s')
      → IsTidy v
      → IsTidy v'
  unfolding apply
  apply-IsTidy v v' [] parent s s' r h = plain v s s' v' r h
  apply-IsTidy v v' (e ∷ es) parent s s' r h =
      let ((v1, s1), r1, r2) =
        >>=-eq-ok (apply_effect store parent v e) (λ v1. apply store v1 es parent) r in
      apply-IsTidy v1 v' es parent s1 s' r2 (apply_effect-IsTidy parent v v1 e s s1 r1 h)
