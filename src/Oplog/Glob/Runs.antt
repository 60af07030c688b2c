-- ===== src/Oplog/Glob/Runs.antt =====
-- Concrete patterns, and the theorems at concrete inputs.
use tessra.Prelude.{true, false, ◌≡◌, refl, ◌↔◌, [], ◌∷◌, codes, eqb}
use tessra.Oplog.Glob.{match_segments, matches, contained, under_prefix}
use tessra.Oplog.Glob.Relation.{SegmentsMatch, match_segments_iff}
use tessra.Oplog.Glob.Contained.{under_prefix_sound}

deep_file : matches (codes "src/**/*.rs") (codes "src/a/b/c.rs") ≡ true
unfolding matches eqb
deep_file = refl

no_segment_between : matches (codes "src/**/*.rs") (codes "src/c.rs") ≡ true
unfolding matches eqb
no_segment_between = refl

basename : matches (codes "*.md") (codes "docs/README.md") ≡ true
unfolding matches eqb
basename = refl

one_character : matches (codes "a/?/c") (codes "a/bb/c") ≡ false
unfolding matches eqb
one_character = refl

child_below : contained (codes "src/auth/**") (codes "src/**") ≡ true
unfolding contained eqb
child_below = refl

-- A literal child without a slash names a file at any depth, and not the one path that is tested.
literal_child : contained (codes "src") (codes "src/**") ≡ true
unfolding contained eqb
literal_child = refl

literal_child_elsewhere : matches (codes "src") (codes "lib/src") ≡ true
unfolding matches eqb
literal_child_elsewhere = refl

literal_parent_elsewhere : matches (codes "src/**") (codes "lib/src") ≡ false
unfolding matches eqb
literal_parent_elsewhere = refl

-- A parent whose `**` stands behind no slash.
short_prefix : contained (codes "src/ab/c") (codes "src/a**") ≡ true
unfolding contained eqb
short_prefix = refl

short_prefix_escapes : matches (codes "src/a**") (codes "src/ab/c") ≡ false
unfolding matches eqb
short_prefix_escapes = refl

match_segments_iff_example :
    (match_segments (codes "**" ∷ codes "b" ∷ []) (codes "a" ∷ codes "b" ∷ []) ≡ true)
    ↔ SegmentsMatch (codes "**" ∷ codes "b" ∷ []) (codes "a" ∷ codes "b" ∷ [])
match_segments_iff_example =
    match_segments_iff (codes "**" ∷ codes "b" ∷ []) (codes "a" ∷ codes "b" ∷ [])

under_prefix_sound_example : matches (codes "src/**") (codes "src/auth/x") ≡ true
unfolding under_prefix matches eqb
under_prefix_sound_example =
    under_prefix_sound (codes "src/auth/*") (codes "src") (codes "src/auth/x") refl refl
