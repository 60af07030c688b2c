-- ===== src/Oplog/Walk/Reached.antt =====
-- The walk finds exactly what can be reached from the queue.
use tessra.Prelude.{
  ℕ, zero, suc, ◌≡◌, sym, ◌∙◌, subst, arith, true, ◌||◌, List, [], ◌∷◌, ◌++◌, ◌↔◌, eqb, eqb_iff,
  contains, insert, contains-insert, contains-append, Bool-cases, inl, inr, list_ord, nat_ord,
}
use tessra.Core.Result.{Result, ok, >>=-eq-ok, ok-injective}
use tessra.Core.Id.{ObjectId}
use tessra.Oplog.Walk.{walk}

module _ (next : ObjectId → Result (List ObjectId)) where
  -- What some root leads to, a step being what `next` gives.
  pub data Reach (roots : List ObjectId) : ObjectId → Type 0 where
    root : {j : ObjectId} → contains roots j ≡ true → Reach roots j
    step :
        {i j : ObjectId} {more : List ObjectId}
        → Reach roots i
        → next i ≡ ok more
        → contains more j ≡ true
        → Reach roots j

  abbrev In : List ObjectId → List ObjectId → ObjectId → Type 0
  In seen queue j = (contains seen j || contains queue j) ≡ true

  -- Whatever was expanded led to what was seen or waits.
  abbrev Settled : List ObjectId → List ObjectId → Type 0
  Settled seen queue =
      (i : ObjectId)
      → contains seen i ≡ true
      → (more : List ObjectId) × (next i ≡ ok more)
        × ((j : ObjectId) → contains more j ≡ true → In seen queue j)

  In-skip :
      (i : ObjectId) (seen queue : List ObjectId) (j : ObjectId)
      → contains seen i ≡ true
      → In seen (i ∷ queue) j
      → In seen queue j
  unfolding contains
  In-skip i seen queue j h k = elim (Bool-cases (eqb i j)) [
    | inl same ↦
        let there = subst (λ x. contains seen x ≡ true) ((eqb_iff i j).0 same) h in ground arith
    | inr other ↦ ground arith
  ]

  In-read :
      (i : ObjectId) (seen queue more : List ObjectId) (j : ObjectId)
      → In seen (i ∷ queue) j
      → In (insert i seen) (queue ++ more) j
  unfolding contains
  In-read i seen queue more j k =
      ground (arith, contains-insert i seen j, contains-append queue more j)

  In-more :
      (i : ObjectId) (seen queue more : List ObjectId) (j : ObjectId)
      → contains more j ≡ true
      → In (insert i seen) (queue ++ more) j
  In-more i seen queue more j k = ground (arith, contains-append queue more j)

  Settled-skip :
      (i : ObjectId) (seen queue : List ObjectId)
      → contains seen i ≡ true
      → Settled seen (i ∷ queue)
      → Settled seen queue
  Settled-skip i seen queue h s k c =
      let (more, e, f) = s k c in (more, e, λ j m. In-skip i seen queue j h (f j m))

  Settled-read :
      (i : ObjectId) (seen queue more : List ObjectId)
      → next i ≡ ok more
      → Settled seen (i ∷ queue)
      → Settled (insert i seen) (queue ++ more)
  Settled-read i seen queue more e s k c = elim (Bool-cases (eqb i k)) [
    | inl same ↦
        let eq = (eqb_iff i k).0 same in
        (more, subst (λ x. next x ≡ ok more) eq e, λ j m. In-more i seen queue more j m)
    | inr other ↦
        let old : contains seen k ≡ true = ground (arith, contains-insert i seen k) in
        let (more', e', f) = s k old in (more', e', λ j m. In-read i seen queue more j (f j m))
  ]

  walk-Settled :
      (fuel : ℕ) (seen queue out : List ObjectId)
      → walk next fuel seen queue ≡ ok out
      → Settled seen queue
      → Settled out [] × ((j : ObjectId) → In seen queue j → contains out j ≡ true)
  unfolding walk contains
  walk-Settled fuel seen [] out e s =
      let same = ok-injective e in
      (
        subst (λ x. Settled x []) same s,
        λ j k. subst (λ x. contains x j ≡ true) same (ground arith),
      )
  walk-Settled zero seen (i ∷ queue) out e s = absurd (cc)
  walk-Settled (suc fuel) seen (i ∷ queue) out e s = elim (Bool-cases (contains seen i)) [
    | inl old ↦
        let (done, all) =
          walk-Settled fuel seen queue out (rw old at e) (Settled-skip i seen queue old s) in
        (done, λ j k. all j (In-skip i seen queue j old k))
    | inr fresh ↦
        let (more, m, e1) = >>=-eq-ok (next i) _ (rw fresh at e) in
        let (done, all) =
          walk-Settled fuel (insert i seen) (queue ++ more) out e1
            (Settled-read i seen queue more m s) in
        (done, λ j k. all j (In-read i seen queue more j k))
  ]

  -- A property of the queue that `next` keeps is one of the result.
  walk-keeps :
      (P : ObjectId → Type 0)
      → ((i j : ObjectId) (more : List ObjectId)
          → P i
          → next i ≡ ok more
          → contains more j ≡ true
          → P j)
      → (fuel : ℕ) (seen queue out : List ObjectId) → ((j : ObjectId) → In seen queue j → P j)
      → walk next fuel seen queue ≡ ok out
      → (j : ObjectId) → contains out j ≡ true
      → P j
  unfolding walk contains
  walk-keeps P keep fuel seen [] out all e j c =
      all j (let c' = subst (λ x. contains x j ≡ true) (sym (ok-injective e)) c in ground arith)
  walk-keeps P keep zero seen (i ∷ queue) out all e j c = absurd (cc)
  walk-keeps P keep (suc fuel) seen (i ∷ queue) out all e j c =
      elim (Bool-cases (contains seen i)) [
        | inl old ↦
            walk-keeps P keep fuel seen queue out (λ k h. all k (ground arith)) (rw old at e) j c
        | inr fresh ↦
            let (more, m, e1) = >>=-eq-ok (next i) _ (rw fresh at e) in
            walk-keeps P keep fuel (insert i seen) (queue ++ more) out
              (λ k h. elim (Bool-cases (contains more k)) [
                | inl new ↦ keep i k more (all i (ground (arith, eqb_iff i i))) m new
                | inr not_new ↦
                    all k (ground (arith, contains-insert i seen k, contains-append queue more k))
              ])
              e1 j c
      ]

  -- From an empty set the walk returns exactly what can be reached from the queue.
  pub walk_iff :
      (fuel : ℕ) (roots out : List ObjectId)
      → walk next fuel [] roots ≡ ok out
      → (j : ObjectId) → (contains out j ≡ true) ↔ Reach roots j
  unfolding contains
  walk_iff fuel roots out e j = (
    walk-keeps (Reach roots) (λ i j more r m c. step r m c) fuel [] roots out (λ j h. root h) e j,
    found,
  )
    where
      closed : Settled out [] × ((j : ObjectId) → In [] roots j → contains out j ≡ true)
      closed = walk-Settled fuel [] roots out e (λ i h. absurd (cc))

      found : {j : ObjectId} → Reach roots j → contains out j ≡ true
      found (root h) = closed.1 _ h
      found (step {i = i} {j = j} {more = more} r m c) =
          let (more', m', f) = closed.0 i (found r) in
          let same : more ≡ more' = ok-injective (sym m ∙ m') in
          let there = f j (subst (λ x. contains x j ≡ true) same c) in ground arith
