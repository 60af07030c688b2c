-- ===== src/Core/Id/Runs.antt =====
-- Concrete identities, and the theorems at concrete inputs.
use tessra.Prelude.{◌≡◌, refl, ◌∷◌, codes, replicate}
use tessra.Core.Result.{err, Error}
use tessra.Core.Id.{EntityId, to_letters, from_letters}

abbrev known : EntityId
known = 0x00 ∷ 0x1f ∷ 0xf0 ∷ 0xab ∷ replicate 12 0

known_letters : to_letters known ≡ codes "kklzzkuvkkkkkkkkkkkkkkkkkkkkkkkk"
unfolding to_letters
known_letters = refl

too_short : from_letters (codes "k") ≡ err Error.id
unfolding from_letters
too_short = refl

not_a_letter : from_letters (replicate 32 b'a') ≡ err Error.id
unfolding from_letters
not_a_letter = refl
