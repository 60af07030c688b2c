-- ===== src/Oplog/Dag/Acceptance.antt =====
-- What accepting an operation does to the log.
use tessra.Prelude.{
  ◌≡◌, refl, ap, sym, subst, ◌∙◌, arith, Bool, true, false, ◌||◌, ◌&&◌, not, List, [], ◌∷◌, Option,
  none, some, All, All-imp, Bytes, eqb, eqb_iff, eqb_refl, contains, contains-insert,
  contains-remove, insert, remove, lookup, lookup-put, insert-IsSorted, remove-IsSorted, IsSorted,
  Bool-cases, inl, inr, ◌⊎◌, list_ord, nat_ord, pair_ord,
}
use tessra.Core.Result.{Result, ok, ◌>>=◌, >>=-eq-ok, ok-injective}
use tessra.Core.Id.{EntityId, ObjectId}
use tessra.Oplog.View.Data.{View, Op}
use tessra.Oplog.Dag.Store.{OpStore}
use tessra.Oplog.Dag.{
  Log, idem_key, known_as, check_parents, remove_all, put_idem, record_op, known_or, accept_new,
  accept,
}

contains-remove_all :
    (ps heads : List ObjectId) (i : ObjectId)
    → contains (remove_all ps heads) i ≡ (contains heads i && not (contains ps i))
unfolding remove_all contains
contains-remove_all [] heads i = ground arith
contains-remove_all (p ∷ ps) heads i =
    contains-remove_all ps (remove p heads) i ∙ ground (arith, contains-remove p heads i)

remove_all-IsSorted : (ps heads : List ObjectId) → IsSorted heads → IsSorted (remove_all ps heads)
unfolding remove_all
remove_all-IsSorted [] heads h = h
remove_all-IsSorted (p ∷ ps) heads h =
    remove_all-IsSorted ps (remove p heads) (remove-IsSorted p heads h)

pub check_parents-All :
    (verified ps : List ObjectId)
    → check_parents verified ps ≡ ok tt
    → All (λ p. contains verified p ≡ true) ps
unfolding check_parents
check_parents-All verified [] h = tt
check_parents-All verified (p ∷ ps) h = ground (arith, check_parents-All verified ps)

either :
    (new head parent known : Bool)
    → (new || (head && not parent)) ≡ true
    → (head ≡ true → known ≡ true)
    → (new || known) ≡ true
either new head parent known h k = ground arith

other : (new known : Bool) → (new || known) ≡ true → new ≡ false → known ≡ true
other new known h n = ground arith

module _ (db : OpStore) where
  open db use {nodes, load_op, load_view, put_op, put_view, op_saved, op_kept, op_kept_view}

  -- The invariant of a log: its heads are verified, and the parents of a verified operation, which
  -- is in the store and whose view is indexed, are verified too.
  abbrev pub IsEntry : Log db → ObjectId → Type 0
  IsEntry log i =
      (op : Op) × (load_op log.store i ≡ ok op)
      × (lookup i log.views ≡ some op.view)
      × All (λ p. contains log.verified p ≡ true) op.parents

  abbrev pub IsLog : Log db → Type 0
  IsLog log =
      IsSorted log.heads
      × ((i : ObjectId) → contains log.heads i ≡ true → contains log.verified i ≡ true)
      × ((i : ObjectId) → contains log.verified i ≡ true → IsEntry log i)

  -- A later store has every operation of an earlier one.
  abbrev pub Keeps : nodes.State → nodes.State → Type 0
  Keeps s s' = (j : ObjectId) (o : Op) → load_op s j ≡ ok o → load_op s' j ≡ ok o

  module _ (log : Log db) (s : nodes.State) (op : Op) (v : View) where
    abbrev new_id : ObjectId
    new_id = (put_op s op).0

    abbrev next : Log db
    next = (record_op db log s op v).1

    parents-later :
        (ps : List ObjectId)
        → All (λ p. contains log.verified p ≡ true) ps
        → All (λ p. contains (insert new_id log.verified) p ≡ true) ps
    parents-later ps h =
        All-imp (λ p e. contains-insert new_id log.verified p ∙ rw e (ground arith)) ps h

    new-IsEntry : All (λ p. contains log.verified p ≡ true) op.parents → IsEntry next new_id
    unfolding record_op
    new-IsEntry h = (
      op,
      op_kept_view (put_op s op).1 v op new_id (op_saved s op),
      lookup-put new_id op.view log.views new_id ∙ rw (eqb_refl new_id),
      parents-later op.parents h,
    )

    old-IsEntry :
        (j : ObjectId) → Keeps log.store s → eqb new_id j ≡ false → IsEntry log j → IsEntry next j
    unfolding record_op
    old-IsEntry j k n (o, l, w, ps) = (
      o,
      op_kept_view (put_op s op).1 v o j (op_kept s op o j (k j o l)),
      lookup-put new_id op.view log.views j ∙ rw n w,
      parents-later o.parents ps,
    )

    contains-verified :
        (j : ObjectId) → contains next.verified j ≡ (eqb new_id j || contains log.verified j)
    unfolding record_op
    contains-verified j = contains-insert new_id log.verified j

    contains-heads :
        (j : ObjectId)
        → contains next.heads j
          ≡ (eqb new_id j || (contains log.heads j && not (contains op.parents j)))
    unfolding record_op
    contains-heads j =
        contains-insert new_id (remove_all op.parents log.heads) j
        ∙ ap (λ b. eqb new_id j || b) (contains-remove_all op.parents log.heads j)

    record_op-IsLog :
        Keeps log.store s
        → All (λ p. contains log.verified p ≡ true) op.parents
        → IsLog log
        → IsLog next
    record_op-IsLog k ps (sorted, below, entries) = (
      unfold record_op in
          insert-IsSorted new_id (remove_all op.parents log.heads)
            (remove_all-IsSorted op.parents log.heads sorted),
      λ i h. contains-verified i ∙ either _ _ _ _ (sym (contains-heads i) ∙ h) (below i),
      λ i h. elim (Bool-cases (eqb new_id i)) [
        | inl e ↦ subst (IsEntry next) ((eqb_iff new_id i).0 e) (new-IsEntry ps)
        | inr n ↦ old-IsEntry i k n (entries i (other _ _ (sym (contains-verified i) ∙ h) n))
      ],
    )

  module _ (verify_op : Log db → Op → Result (View × nodes.State)) where
    -- What an accepted operation that was not known went through.
    accept_new-ok :
        (log log' : Log db) (op : Op) (i : ObjectId)
        → accept_new db verify_op log op ≡ ok (i, log')
        → (q : View × nodes.State) × (check_parents log.verified op.parents ≡ ok tt)
          × (verify_op log op ≡ ok q)
          × (record_op db log q.1 op q.0 ≡ (i, log'))
    unfolding accept_new
    accept_new-ok log log' op i e =
        let (t, e1, e2) =
          >>=-eq-ok (check_parents log.verified op.parents)
            (λ _. verify_op log op >>= λ q. ok (record_op db log q.1 op q.0)) e in
        let (q, e3, e4) = >>=-eq-ok (verify_op log op) (λ q. ok (record_op db log q.1 op q.0)) e2 in
        (q, e1, e3, ok-injective e4)

    known_or-ok :
        (o : Option ObjectId) (log log' : Log db) (r : Result (ObjectId × Log db)) (i : ObjectId)
        → known_or o log r ≡ ok (i, log')
        → (o ≡ some i) × (log ≡ log') ⊎ (o ≡ none) × (r ≡ ok (i, log'))
    unfolding known_or
    known_or-ok none log log' r i e = inr (refl, e)
    known_or-ok (some j) log log' r i e =
        inl (ap (λ p. some p.0) (ok-injective e), ap (λ p. p.1) (ok-injective e))

    accept-ok :
        (log log' : Log db) (op : Op) (i : ObjectId)
        → accept db verify_op log op ≡ ok (i, log')
        → (known_as log (idem_key op) ≡ some i) × (log ≡ log')
          ⊎ (known_as log (idem_key op) ≡ none)
            × ((q : View × nodes.State) × (check_parents log.verified op.parents ≡ ok tt)
                × (verify_op log op ≡ ok q)
                × (record_op db log q.1 op q.0 ≡ (i, log')))
    unfolding accept
    accept-ok log log' op i e =
        elim (known_or-ok (known_as log (idem_key op)) log log' (accept_new db verify_op log op) i
          e) [ inl known ↦ inl known | inr (n, e') ↦ inr (n, accept_new-ok log log' op i e') ]

    -- Accepting an operation keeps the invariant of the log, where verification loses no operation of
    -- the store.
    pub accept-IsLog :
        (log log' : Log db) (op : Op) (i : ObjectId)
        → ((q : View × nodes.State) → verify_op log op ≡ ok q → Keeps log.store q.1)
        → accept db verify_op log op ≡ ok (i, log')
        → IsLog log
        → IsLog log'
    accept-IsLog log log' op i keeps e w = elim (accept-ok log log' op i e) [
      | inl (k, same) ↦ subst IsLog same w
      | inr (n, (q, parents, v, r)) ↦ subst IsLog (ap (λ p. p.1) r) (
          record_op-IsLog log q.1 op q.0 (keeps q v)
            (check_parents-All log.verified op.parents parents) w)
    ]

    -- An operation that was not known is accepted only if its parents are verified. It becomes a head
    -- and verified, its parents are heads no longer, and nothing else changes.
    pub accept-heads :
        (log log' : Log db) (op : Op) (i j : ObjectId)
        → known_as log (idem_key op) ≡ none
        → accept db verify_op log op ≡ ok (i, log')
        → All (λ p. contains log.verified p ≡ true) op.parents
          × (contains log'.heads j
              ≡ (eqb i j || (contains log.heads j && not (contains op.parents j))))
          × (contains log'.verified j ≡ (eqb i j || contains log.verified j))
    unfolding record_op
    accept-heads log log' op i j fresh e = elim (accept-ok log log' op i e) [
      | inl (k, same) ↦ absurd (some-none (sym k ∙ fresh))
      | inr (n, (q, parents, v, r)) ↦ (
        check_parents-All log.verified op.parents parents,
        ap (λ p. contains p.1.heads j) (sym r)
            ∙ contains-heads log q.1 op q.0 j
            ∙ ap (λ p. eqb p j || (contains log.heads j && not (contains op.parents j)))
                (ap (λ p. p.0) r),
        ap (λ p. contains p.1.verified j) (sym r)
            ∙ contains-verified log q.1 op q.0 j
            ∙ ap (λ p. eqb p j || contains log.verified j) (ap (λ p. p.0) r),
      )
    ]
      where
        some-none : some i ≡ none → ⊥
        some-none h = cc

    known_as-recorded :
        (log : Log db) (s : nodes.State) (op : Op) (v : View) (k : EntityId × Bytes)
        → idem_key op ≡ some k
        → known_as (record_op db log s op v).1 (idem_key op) ≡ some (record_op db log s op v).0
    unfolding record_op
    known_as-recorded log s op v k e =
        rw e (unfold known_as put_idem in lookup-put k (put_op s op).0 log.idem k ∙ rw (eqb_refl k))

    accept-known :
        (log : Log db) (op : Op) (i : ObjectId)
        → known_as log (idem_key op) ≡ some i
        → accept db verify_op log op ≡ ok (i, log)
    unfolding accept known_or
    accept-known log op i e = ap (λ o. known_or o log (accept_new db verify_op log op)) e

    -- An accepted operation with an idempotency key is accepted again with the same ID, whatever
    -- verification would say, and the log stays as it is.
    pub accept-again :
        (log log' : Log db) (op : Op) (i : ObjectId) (k : EntityId × Bytes)
        → idem_key op ≡ some k
        → accept db verify_op log op ≡ ok (i, log')
        → accept db verify_op log' op ≡ ok (i, log')
    accept-again log log' op i k key e = elim (accept-ok log log' op i e) [
      | inl (known, same) ↦
          accept-known log' op i (ap (λ l. known_as l (idem_key op)) (sym same) ∙ known)
      | inr (n, (q, parents, v, r)) ↦ accept-known log' op i (
          ap (λ p. known_as p.1 (idem_key op)) (sym r)
          ∙ known_as-recorded log q.1 op q.0 k key
          ∙ ap (λ p. some p.0) r)
    ]
