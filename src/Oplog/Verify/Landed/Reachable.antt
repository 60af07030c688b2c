-- ===== src/Oplog/Verify/Landed/Reachable.antt =====
-- What counts as landed: the revisions that the heads of the lines lead to, also from the cache.
use tessra.Prelude.{
  ℕ, ◌≤◌, ◌≡◌, ap, subst, arith, true, leb, List, [], ◌∷◌, ◌↔◌, length, length-append, drop, All,
  All-append, some, eqb, eqb_iff, lookup, contains, sort, Bool-cases, Option-cases, inl, inr,
  list_ord, nat_ord,
}
use tessra.Core.Result.{ok, >>=-eq-ok, ok-injective}
use tessra.Core.Id.{ObjectId}
use tessra.Oplog.View.Data.{View}
use tessra.Oplog.Walk.{walk}
use tessra.Oplog.Walk.Reached.{Reach, walk_iff}
use tessra.Oplog.Verify.Objects.{Objects, State}
use tessra.Oplog.Verify.Landed.{
  Cache, landed_kept, head_ids, remember, parents_of, landed_walk, landed_revisions,
}

module _ (db : Objects) (s : State db) where
  -- A set that holds exactly what a list of heads leads to.
  abbrev pub IsLanded : List ObjectId → List ObjectId → Type 0
  IsLanded key seen = (j : ObjectId) → (contains seen j ≡ true) ↔ Reach (parents_of db s) key j

  -- Every entry of the cache is such a set, and there are at most `LANDED_KEPT`.
  abbrev pub IsCache : Cache → Type 0
  IsCache cache =
      All (λ (e : List ObjectId × List ObjectId). IsLanded e.0 e.1) cache × (length cache ≤ 16)

  lookup-All :
      (cache : Cache) (key seen : List ObjectId)
      → All (λ (e : List ObjectId × List ObjectId). IsLanded e.0 e.1) cache
      → lookup key cache ≡ some seen
      → IsLanded key seen
  unfolding lookup
  lookup-All [] key seen h e = absurd (cc)
  lookup-All ((k, v) ∷ cache) key seen (h, hs) e = elim (Bool-cases (eqb k key)) [
    | inl same ↦
        let hit : v ≡ seen = cc (rw same at e) in
        subst (λ x. IsLanded key x) hit (subst (λ x. IsLanded x v) ((eqb_iff k key).0 same) h)
    | inr other ↦ lookup-All cache key seen hs (rw other at e)
  ]

  drop-IsCache :
      (cache : Cache)
      → IsCache cache
      → All (λ (e : List ObjectId × List ObjectId). IsLanded e.0 e.1) (drop 1 cache)
        × (length (drop 1 cache) ≤ 15)
  drop-IsCache [] h = (tt, omega arith)
  drop-IsCache (e ∷ cache) h = (h.0.1, omega arith)

  remember-IsCache :
      (key seen : List ObjectId) (cache : Cache)
      → IsLanded key seen
      → IsCache cache
      → IsCache (remember key seen cache)
  unfolding remember
  remember-IsCache key seen cache landed h = elim (Bool-cases (leb landed_kept (length cache))) [
    | inl full ↦
        let (left, room) = drop-IsCache cache h in
        rw full (
          All-append _ (drop 1 cache) ((key, seen) ∷ []) left (landed, tt),
          omega (arith, length-append (drop 1 cache) ((key, seen) ∷ [])),
        )
    | inr space ↦
        let room : length cache ≤ 15 = ground arith in
        rw space (
          All-append _ cache ((key, seen) ∷ []) h.0 (landed, tt),
          omega (arith, length-append cache ((key, seen) ∷ [])),
        )
  ]

  -- With a cache of such sets, the set returned, cached or not, holds exactly the revisions that the heads of the
  -- lines lead to by parents, and the cache keeps only such sets, at most sixteen.
  pub landed_revisions_lem :
      (fuel : ℕ) (cache cache' : Cache) (view : View) (seen : List ObjectId)
      → IsCache cache
      → landed_revisions db fuel cache s view ≡ ok (seen, cache')
      → IsLanded (sort (head_ids view.lines)) seen × IsCache cache'
  unfolding landed_revisions landed_walk
  landed_revisions_lem fuel cache cache' view seen h e =
      elim (Option-cases (lookup (sort (head_ids view.lines)) cache)) [
        | inr (old, hit) ↦
            let same = ok-injective (rw hit at e) in
            (
              subst (λ x. IsLanded (sort (head_ids view.lines)) x) (ap (λ p. p.0) same)
                  (lookup-All cache (sort (head_ids view.lines)) old h.0 hit),
              subst IsCache (ap (λ p. p.1) same) h,
            )
        | inl miss ↦
            let (found, w, e1) =
              >>=-eq-ok (walk (parents_of db s) fuel [] (sort (head_ids view.lines))) _
                (rw miss at e) in
            let same = ok-injective e1 in
            let landed = walk_iff (parents_of db s) fuel (sort (head_ids view.lines)) found w in
            (
              subst (λ x. IsLanded (sort (head_ids view.lines)) x) (ap (λ p. p.0) same) landed,
              subst IsCache (ap (λ p. p.1) same)
                  (remember-IsCache (sort (head_ids view.lines)) found cache landed h),
            )
      ]
