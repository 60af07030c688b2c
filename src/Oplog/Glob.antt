-- ===== src/Oplog/Glob.antt =====
-- crates/tessra-oplog/src/glob.rs: path patterns. A text is the list of its characters.
pub mod Relation
pub mod Contained
mod Runs
use tessra.Prelude.{ℕ, Bool, true, false, not, ◌&&◌, ◌||◌, List, [], ◌∷◌, ◌++◌, Bytes, codes}
use tessra.Prelude.{
  Option, none, some, ◌==◌, if◌then◌else◌, any, all, filter, eqb, list_ord, nat_ord,
}

-- The slices `s[i..]` for `i` in `0..=s.len()`.
unfoldable pub suffixes {ℓ} : {A : Type ℓ} → List A → List (List A)
suffixes [] = [] ∷ []
suffixes (x ∷ xs) = (x ∷ xs) ∷ suffixes xs

unfoldable pub is_empty {ℓ} : {A : Type ℓ} → List A → Bool
is_empty [] = true
is_empty (x ∷ xs) = false

-- The last two arms of `match_chars`: the pattern's character `c`, and what is left to match.
unfoldable pub match_char : ℕ → Bytes → (Bytes → Bool) → Bool
match_char c [] next = false
match_char c (x ∷ s) next = if c == b'?' then next s else x == c && next s

unfoldable pub match_chars : Bytes → Bytes → Bool
unfolding is_empty suffixes match_char any
match_chars [] s = is_empty s
match_chars (c ∷ rest) s =
    let next = match_chars rest in if c == b'*' then any next (suffixes s) else match_char c s next

unfoldable pub match_segment : Bytes → Bytes → Bool
unfolding match_chars
match_segment p s = match_chars p s

-- The last arm of `match_segments`.
unfoldable pub match_one : Bytes → List Bytes → (List Bytes → Bool) → Bool
unfolding match_segment
match_one p [] next = false
match_one p (s ∷ srest) next = match_segment p s && next srest

abbrev pub double_star : Bytes
double_star = codes "**"

unfoldable pub match_segments : List Bytes → List Bytes → Bool
unfolding is_empty suffixes match_one any
match_segments [] segs = is_empty segs
match_segments (p ∷ rest) segs =
    let next = match_segments rest in
    if eqb p double_star then any next (suffixes segs) else match_one p segs next

abbrev pub slash : ℕ
slash = b'/'

-- `trim_start_matches('/')`
unfoldable pub trim_start : Bytes → Bytes
trim_start [] = []
trim_start (c ∷ s) = if c == slash then trim_start s else c ∷ s

-- `split('/')`: the first piece, and the pieces after it.
unfoldable pub split_first : Bytes → Bytes × List Bytes
split_first [] = ([], [])
split_first (c ∷ s) =
    let (piece, rest) = split_first s in
    if c == slash then ([], piece ∷ rest) else (c ∷ piece, rest)

unfoldable pub split : Bytes → List Bytes
unfolding split_first
split s = let (piece, rest) = split_first s in piece ∷ rest

-- `split('/').filter(|s| !s.is_empty())`
unfoldable pub segments : Bytes → List Bytes
unfolding split filter is_empty
segments s = filter (λ p. not (is_empty p)) (split s)

unfoldable pub has_char : ℕ → Bytes → Bool
unfolding any
has_char c s = any (λ x. x == c) s

-- `matches`, once the slashes in front are gone.
unfoldable pub matches_trimmed : Bytes → Bytes → Bool
unfolding match_segments split segments has_char
matches_trimmed pattern path =
    if not (has_char slash pattern)
    then match_segments (double_star ∷ pattern ∷ []) (split path)
    else match_segments (segments pattern) (segments path)

unfoldable pub matches : Bytes → Bytes → Bool
unfolding matches_trimmed trim_start
matches pattern path = matches_trimmed (trim_start pattern) (trim_start path)

-- `strip_suffix("**")`
unfoldable pub strip_double_star : Bytes → Option Bytes
strip_double_star [] = none
strip_double_star (c ∷ s) =
    if eqb (c ∷ s) double_star
    then some []
    else elim (strip_double_star s) [ none ↦ none | some t ↦ some (c ∷ t) ]

unfoldable pub starts_with : Bytes → Bytes → Bool
starts_with s [] = true
starts_with [] (p ∷ ps) = false
starts_with (c ∷ s) (p ∷ ps) = c == p && starts_with s ps

-- The second test of `contained`.
unfoldable pub under_prefix : Bytes → Bytes → Bool
unfolding strip_double_star starts_with
under_prefix child parent = elim (strip_double_star parent) [
  | none ↦ false
  | some prefix ↦ starts_with child prefix
]

unfoldable pub has_wildcard : Bytes → Bool
unfolding has_char
has_wildcard s = any (λ x. x == b'*' || x == b'?') s

unfoldable pub contained : Bytes → Bytes → Bool
unfolding under_prefix has_wildcard matches
contained child parent =
    if eqb child parent
    then true
    else if under_prefix child parent
    then true
    else not (has_wildcard child) && matches parent child

unfoldable pub any_match : List Bytes → Bytes → Bool
unfolding any matches
any_match patterns path = any (λ p. matches p path) patterns
