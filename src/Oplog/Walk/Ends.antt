-- ===== src/Oplog/Walk/Ends.antt =====
-- The walk ends where what it can meet is finite: a bound on its rounds.
use tessra.Prelude.{
  ℕ, zero, suc, ◌+◌, ◌≤◌, ◌≡◌, refl, arith, true, false, List, [], ◌∷◌, ◌++◌, length, length-append,
  if◌then◌else◌, eqb, eqb_iff, contains, insert, contains-insert, contains-append, Bool-cases, inl,
  inr, list_ord, nat_ord,
}
use tessra.Core.Result.{Result, ok, err}
use tessra.Core.Id.{ObjectId}
use tessra.Oplog.Walk.{walk}

module _ (next : ObjectId → Result (List ObjectId)) where
  abbrev pub size : Result (List ObjectId) → ℕ
  size (ok more) = length more
  size (err e) = 0

  -- What the IDs of a list that were not expanded add to the queue.
  abbrev pub left_over : List ObjectId → List ObjectId → ℕ
  left_over seen [] = 0
  left_over seen (u ∷ us) = (if contains seen u then 0 else size (next u)) + left_over seen us

  -- Every ID of the list leads only to IDs of the list.
  abbrev pub IsClosed : List ObjectId → Type 0
  IsClosed us =
      (i : ObjectId)
      → contains us i ≡ true
      → (more : List ObjectId) × (next i ≡ ok more)
        × ((j : ObjectId) → contains more j ≡ true → contains us j ≡ true)

  left_over-insert-le :
      (i : ObjectId) (seen us : List ObjectId) → left_over (insert i seen) us ≤ left_over seen us
  left_over-insert-le i seen [] = omega arith
  left_over-insert-le i seen (u ∷ us) =
      ground (arith, contains-insert i seen u, left_over-insert-le i seen us)

  left_over-insert :
      (i : ObjectId) (seen us more : List ObjectId)
      → contains seen i ≡ false
      → next i ≡ ok more
      → contains us i ≡ true
      → length more + left_over (insert i seen) us ≤ left_over seen us
  unfolding contains
  left_over-insert i seen [] more f e h = absurd (cc)
  left_over-insert i seen (u ∷ us) more f e h = elim (Bool-cases (eqb u i)) [
    | inl same ↦
        let eq : u ≡ i = (eqb_iff u i).0 same in
        let there : contains (insert i seen) u ≡ true =
          rw eq (ground (arith, contains-insert i seen i, eqb_iff i i)) in
        let fresh : contains seen u ≡ false = rw eq f in
        let bound : size (next u) ≡ length more = rw (eq, e) refl in
        rw (there, fresh, bound) (omega (arith, left_over-insert-le i seen us))
    | inr other ↦
        let later : contains us i ≡ true = ground arith in
        ground (arith, contains-insert i seen u, left_over-insert i seen us more f e later)
  ]

  walk-ends_from :
      (us : List ObjectId)
      → IsClosed us
      → (fuel : ℕ) (seen queue : List ObjectId)
      → ((j : ObjectId) → contains queue j ≡ true → contains us j ≡ true)
      → length queue + left_over seen us ≤ fuel
      → (out : List ObjectId) × (walk next fuel seen queue ≡ ok out)
  unfolding walk contains
  walk-ends_from us closed fuel seen [] inside enough = (seen, refl)
  walk-ends_from us closed zero seen (i ∷ queue) inside enough = absurd (omega arith)
  walk-ends_from us closed (suc fuel) seen (i ∷ queue) inside enough =
      elim (Bool-cases (contains seen i)) [
        | inl old ↦ rw old (
            walk-ends_from us closed fuel seen queue (λ j c. inside j (ground arith)) (omega arith))
        | inr fresh ↦
            let here = inside i (ground (arith, eqb_iff i i)) in
            let (more, e, f) = closed i here in
            let (out, done) =
              walk-ends_from us closed fuel (insert i seen) (queue ++ more)
                (λ j c. elim (Bool-cases (contains more j)) [
                  | inl new ↦ f j new
                  | inr not_new ↦ inside j (ground (arith, contains-append queue more j))
                ])
                (omega (
                  arith,
                  length-append queue more,
                  left_over-insert i seen us more fresh e here,
                )) in
            (out, rw (fresh, e) done)
      ]

  -- Where the queue is among IDs that lead only to one another, the walk ends, in as many rounds as the
  -- queue and what those IDs lead to are long.
  pub walk-ends :
      (us : List ObjectId) (fuel : ℕ) (roots : List ObjectId)
      → IsClosed us
      → ((j : ObjectId) → contains roots j ≡ true → contains us j ≡ true)
      → length roots + left_over [] us ≤ fuel
      → (out : List ObjectId) × (walk next fuel [] roots ≡ ok out)
  walk-ends us fuel roots closed inside enough =
      walk-ends_from us closed fuel [] roots inside enough
