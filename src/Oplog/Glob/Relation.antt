-- ===== src/Oplog/Glob/Relation.antt =====
-- What a pattern means, with no search in it, and that the matchers of glob.rs decide it.
use tessra.Prelude.{ℕ, Bool, true, ◌≡◌, refl, ◌↔◌, inl, inr, List, [], ◌∷◌, ◌++◌, Bytes}
use tessra.Prelude.{
  list_ord, nat_ord, ap, sym, ◌∙◌, append-nil, append_assoc, ◌⊎◌, arith, any, ◌==◌, ==_iff, eqb,
  eqb_iff, Bool-cases,
}
use tessra.Oplog.Glob.{suffixes, is_empty, match_char, match_chars, match_one}
use tessra.Oplog.Glob.{double_star, match_segments}

-- A sequence of items, each a wildcard for a run, or a test of one element.
module _ {ℓ κ} {P : Type ℓ} {A : Type κ} (IsRun : P → Type 0) (Accepts : P → A → Type 0) where
  pub data Matches : List P → List A → Type (ℓ ⊔ κ) where
    end : Matches [] []
    run :
        {p : P} {ps : List P} {s t : List A} (front : List A)
        → IsRun p
        → t ≡ front ++ s
        → Matches ps s
        → Matches (p ∷ ps) t
    one :
        {p : P} {ps : List P} {x : A} {s : List A}
        → ¬ IsRun p
        → Accepts p x
        → Matches ps s
        → Matches (p ∷ ps) (x ∷ s)

module _ {ℓ κ} {P : Type ℓ} {A : Type κ} {IsRun : P → Type 0} {Accepts : P → A → Type 0} where
  -- What the front of a pattern matches, and that a wildcard behind it takes the rest.
  pub Matches-append_inv :
      (p q : List P) (s : List A)
      → Matches IsRun Accepts (p ++ q) s
      → (front : List A) × (back : List A) × (s ≡ front ++ back) × Matches IsRun Accepts p front
  Matches-append_inv [] q s d = ([], s, refl, end)
  Matches-append_inv (c ∷ p) q s (run {s = t} taken r e d) =
      let (front, back, e', d') = Matches-append_inv p q t d in
      (
        taken ++ front,
        back,
        e ∙ ap (λ l. taken ++ l) e' ∙ sym (append_assoc taken front back),
        run taken r refl d',
      )
  Matches-append_inv (c ∷ p) q s (one {x = x} {s = t} n a d) =
      let (front, back, e', d') = Matches-append_inv p q t d in
      (x ∷ front, back, ap (λ l. x ∷ l) e', one n a d')

  pub Matches-run_at_end :
      {p : List P} {front : List A} (c : P) (back : List A)
      → IsRun c
      → Matches IsRun Accepts p front
      → Matches IsRun Accepts (p ++ c ∷ []) (front ++ back)
  Matches-run_at_end c back r end = run back r (sym (append-nil back)) end
  Matches-run_at_end c back r (run {s = t} taken r' e d) =
      run taken r' (ap (λ l. l ++ back) e ∙ append_assoc taken t back)
        (Matches-run_at_end c back r d)
  Matches-run_at_end c back r (one n a d) = one n a (Matches-run_at_end c back r d)

module _ {ℓ} {A : Type ℓ} where
  any_suffix→split :
      (f : List A → Bool) (s : List A)
      → any f (suffixes s) ≡ true
      → (front : List A) × (back : List A) × (s ≡ front ++ back) × (f back ≡ true)
  unfolding any suffixes
  any_suffix→split f [] h = ([], [], refl, ground arith)
  any_suffix→split f (x ∷ s) h = elim (Bool-cases (f (x ∷ s))) [
    | inl now ↦ ([], x ∷ s, refl, now)
    | inr later ↦
        let (front, back, e, t) = any_suffix→split f s (rw later at h) in
        (x ∷ front, back, ap (λ l. x ∷ l) e, t)
  ]

  split→any_suffix :
      (f : List A → Bool) (front back : List A)
      → f back ≡ true
      → any f (suffixes (front ++ back)) ≡ true
  unfolding any suffixes
  split→any_suffix f [] [] h = rw h
  split→any_suffix f [] (x ∷ back) h = rw h
  split→any_suffix f (x ∷ front) back h = ground (arith, split→any_suffix f front back h)

is_empty_iff {ℓ} : {A : Type ℓ} (s : List A) → is_empty s ≡ true → s ≡ []
unfolding is_empty
is_empty_iff [] h = refl
is_empty_iff (x ∷ s) h = cc

-- Of characters: `*` is a run, `?` accepts any character, and any other accepts itself.
abbrev pub IsStar : ℕ → Type 0
IsStar c = c ≡ b'*'

abbrev pub AcceptsChar : ℕ → ℕ → Type 0
AcceptsChar c x = (c ≡ b'?') ⊎ (x ≡ c)

abbrev pub CharsMatch : Bytes → Bytes → Type 0
CharsMatch = Matches IsStar AcceptsChar

match_chars→Matches : (p s : Bytes) → match_chars p s ≡ true → CharsMatch p s
unfolding match_chars
match_chars→Matches [] [] h = end
match_chars→Matches [] (x ∷ s) h = cc
match_chars→Matches (c ∷ p) s h = elim (Bool-cases (c == b'*')) [
  | inl star ↦
      let (front, back, e, t) = any_suffix→split (match_chars p) s (rw star at h) in
      run front ((==_iff c b'*').0 star) e (match_chars→Matches p back t)
  | inr other ↦ char_step c p s (λ e. ground arith) (match_chars→Matches p) (rw other at h)
]
  where
    char_step :
        (c : ℕ) (p s : Bytes)
        → ¬ IsStar c
        → ((t : Bytes) → match_chars p t ≡ true → CharsMatch p t)
        → match_char c s (match_chars p) ≡ true
        → CharsMatch (c ∷ p) s
    char_step c p [] n ih h = cc
    char_step c p (x ∷ s) n ih h = one n (ground arith) (ih s (ground arith))

Matches→match_chars : {p s : Bytes} → CharsMatch p s → match_chars p s ≡ true
unfolding match_chars
Matches→match_chars end = refl
Matches→match_chars (run {p = c} {ps = p} {s = s} front star e d) =
    rw ((==_iff c b'*').1 star, e)
      (split→any_suffix (match_chars p) front s (Matches→match_chars d))
Matches→match_chars (one n a d) = ground (arith, Matches→match_chars d)

-- `match_chars` decides the relation.
match_chars_iff : (p s : Bytes) → (match_chars p s ≡ true) ↔ CharsMatch p s
match_chars_iff p s = (match_chars→Matches p s, Matches→match_chars)

-- Of segments: `**` is a run of segments, and any other segment matches character by character.
abbrev pub IsDoubleStar : Bytes → Type 0
IsDoubleStar p = p ≡ double_star

abbrev pub SegmentsMatch : List Bytes → List Bytes → Type 0
SegmentsMatch = Matches IsDoubleStar CharsMatch

match_segments→Matches : (p s : List Bytes) → match_segments p s ≡ true → SegmentsMatch p s
unfolding match_segments
match_segments→Matches [] [] h = end
match_segments→Matches [] (x ∷ s) h = cc
match_segments→Matches (c ∷ p) s h = elim (Bool-cases (eqb c double_star)) [
  | inl star ↦
      let (front, back, e, t) = any_suffix→split (match_segments p) s (rw star at h) in
      run front ((eqb_iff c double_star).0 star) e (match_segments→Matches p back t)
  | inr other ↦
      segment_step c p s (λ e. cc ((eqb_iff c double_star).1 e)) (match_segments→Matches p)
        (rw other at h)
]
  where
    segment_step :
        (c : Bytes) (p s : List Bytes)
        → ¬ IsDoubleStar c
        → ((t : List Bytes) → match_segments p t ≡ true → SegmentsMatch p t)
        → match_one c s (match_segments p) ≡ true
        → SegmentsMatch (c ∷ p) s
    segment_step c p [] n ih h = cc
    segment_step c p (x ∷ s) n ih h =
        one n (match_chars→Matches c x (ground arith)) (ih s (ground arith))

Matches→match_segments : {p s : List Bytes} → SegmentsMatch p s → match_segments p s ≡ true
unfolding match_segments
Matches→match_segments end = refl
Matches→match_segments (run {p = c} {ps = p} {s = s} front star e d) =
    rw ((eqb_iff c double_star).1 star, e)
      (split→any_suffix (match_segments p) front s (Matches→match_segments d))
Matches→match_segments (one {p = c} n a d) = elim (Bool-cases (eqb c double_star)) [
  | inl star ↦ absurd (n ((eqb_iff c double_star).0 star))
  | inr other ↦ rw (other, Matches→match_chars a, Matches→match_segments d)
]

-- `match_segments` decides the relation on segments.
pub match_segments_iff : (p s : List Bytes) → (match_segments p s ≡ true) ↔ SegmentsMatch p s
match_segments_iff p s = (match_segments→Matches p s, Matches→match_segments)
