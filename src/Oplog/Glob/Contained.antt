-- ===== src/Oplog/Glob/Contained.antt =====
-- When `contained` may be trusted: a parent that ends in `/**` covers what its child matches.
use tessra.Prelude.{
  Bool, true, false, not, ◌≡◌, ◌≢◌, refl, sym, ap, inl, inr, ◌⊎◌, List, [], ◌∷◌, ◌++◌,
}
use tessra.Prelude.{Bytes, codes, arith, eqb, eqb_iff, list_ord, nat_ord, Bool-cases}
use tessra.Prelude.{any, filter, some, length, length-append}
use tessra.Prelude.{append_assoc, append-nil}
use tessra.Oplog.Glob.{is_empty, double_star, slash, trim_start, split_first, split}
use tessra.Oplog.Glob.{segments, has_char, matches_trimmed, matches, strip_double_star, starts_with}
use tessra.Oplog.Glob.{under_prefix}
use tessra.Oplog.Glob.Relation.{SegmentsMatch, end, run, Matches-append_inv, Matches-run_at_end}
use tessra.Oplog.Glob.Relation.{match_segments_iff}

list_cases {ℓ} : {A : Type ℓ} (xs : List A) → (xs ≡ []) ⊎ (xs ≢ [])
list_cases [] = inl refl
list_cases (x ∷ xs) = inr λ e. cc

trim_start-append_slashes : (q s : Bytes) → trim_start q ≡ [] → trim_start (q ++ s) ≡ trim_start s
unfolding trim_start
trim_start-append_slashes [] s h = refl
trim_start-append_slashes (c ∷ q) s h = ground (arith, trim_start-append_slashes q s)

trim_start-append : (q s : Bytes) → trim_start q ≢ [] → trim_start (q ++ s) ≡ trim_start q ++ s
unfolding trim_start
trim_start-append [] s h = absurd (h refl)
trim_start-append (c ∷ q) s h = ground (arith, trim_start-append q s)

split_first-append :
    (t r : Bytes)
    → split_first (t ++ slash ∷ r)
      ≡ ((split_first t).0, (split_first t).1 ++ (split_first r).0 ∷ (split_first r).1)
unfolding split_first
split_first-append [] r = refl
split_first-append (c ∷ t) r = ground (arith, split_first-append t r)

filter-append {ℓ} :
    {A : Type ℓ} (p : A → Bool) (xs ys : List A) → filter p (xs ++ ys) ≡ filter p xs ++ filter p ys
unfolding filter
filter-append p [] ys = refl
filter-append p (x ∷ xs) ys = ground (arith, filter-append p xs ys)

-- A slash in the middle separates segments.
segments-append : (t r : Bytes) → segments (t ++ slash ∷ r) ≡ segments t ++ segments r
unfolding segments
segments-append t r = rw (split_first-append t r) (
    filter-append (λ p. not (is_empty p)) ((split_first t).0 ∷ (split_first t).1)
      ((split_first r).0 ∷ (split_first r).1))

has_slash : (t r : Bytes) → has_char slash (t ++ slash ∷ r) ≡ true
unfolding has_char any
has_slash [] r = refl
has_slash (c ∷ t) r = ground (arith, has_slash t r)

strip_double_star-append : (s : Bytes) → strip_double_star (s ++ double_star) ≡ some s
unfolding strip_double_star
strip_double_star-append [] = unfold eqb in refl
strip_double_star-append (c ∷ s) = rw (too_long, strip_double_star-append s)
  where
    too_long : eqb (c ∷ s ++ double_star) double_star ≡ false
    too_long = elim (Bool-cases (eqb (c ∷ s ++ double_star) double_star)) [
      | inl e ↦ absurd (
          omega (
            arith,
            ap length ((eqb_iff (c ∷ s ++ double_star) double_star).0 e),
            length-append {0} s double_star,
          ))
      | inr n ↦ n
    ]

starts_with→append : (s p : Bytes) → starts_with s p ≡ true → (r : Bytes) × (s ≡ p ++ r)
unfolding starts_with
starts_with→append s [] h = (s, refl)
starts_with→append [] (c ∷ p) h = cc
starts_with→append (x ∷ s) (c ∷ p) h =
    let (r, e) = starts_with→append s p (ground arith) in (r, ground arith)

-- A parent that ends in `**` behind a slash matches all that is below the segments before it.
prefix_matches :
    (t r path : Bytes)
    → matches_trimmed (t ++ slash ∷ r) path ≡ true
    → matches_trimmed (t ++ slash ∷ double_star) path ≡ true
unfolding matches_trimmed
prefix_matches t r path h =
    rw (has_slash t double_star, segments-append t double_star)
      ((match_segments_iff (segments t ++ double_star ∷ []) (segments path)).1 covered)
  where
    whole : SegmentsMatch (segments t ++ segments r) (segments path)
    whole = (match_segments_iff _ (segments path)).0 (rw (has_slash t r, segments-append t r) at h)

    covered : SegmentsMatch (segments t ++ double_star ∷ []) (segments path)
    covered =
        let (front, back, e, d) =
          Matches-append_inv (segments t) (segments r) (segments path) whole in
        rw e (Matches-run_at_end double_star back refl d)

double_star_matches : (path : Bytes) → matches_trimmed double_star path ≡ true
unfolding matches_trimmed
double_star_matches path =
    (match_segments_iff (double_star ∷ double_star ∷ []) (split path)).1
      (run (split path) refl (sym (append-nil (split path))) (run [] refl refl end))

matches_lem :
    (pattern path : Bytes)
    → matches pattern path ≡ matches_trimmed (trim_start pattern) (trim_start path)
unfolding matches
matches_lem pattern path = refl

trim_slash : trim_start (slash ∷ double_star) ≡ double_star
unfolding trim_start
trim_slash = refl

below_matches :
    (q r path : Bytes)
    → matches (q ++ slash ∷ r) path ≡ true
    → matches (q ++ slash ∷ double_star) path ≡ true
below_matches q r path h = elim (list_cases (trim_start q)) [
  | inl none_left ↦
      rw (matches_lem, trim_start-append_slashes q (slash ∷ double_star) none_left, trim_slash)
        (double_star_matches (trim_start path))
  | inr some_left ↦
      rw (matches_lem, trim_start-append q (slash ∷ double_star) some_left)
        (prefix_matches (trim_start q) r (trim_start path)
          (rw (matches_lem, trim_start-append q (slash ∷ r) some_left) at h))
]

-- A child that `contained` accepts by the prefix of a parent `q/**` matches no path that the parent
-- does not match.
pub under_prefix_sound :
    (child q path : Bytes)
    → under_prefix child (q ++ codes "/**") ≡ true
    → matches child path ≡ true
    → matches (q ++ codes "/**") path ≡ true
unfolding under_prefix
under_prefix_sound child q path h m =
    let (r, e) = starts_with→append child (q ++ slash ∷ []) starts in
    below_matches q r path (rw (e, append_assoc) at m)
  where
    stripped : strip_double_star (q ++ codes "/**") ≡ some (q ++ slash ∷ [])
    stripped =
        rw (← append_assoc q (slash ∷ []) double_star) (strip_double_star-append (q ++ slash ∷ []))

    starts : starts_with child (q ++ slash ∷ []) ≡ true
    starts = rw (under_prefix, stripped) at h
