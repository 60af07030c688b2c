-- ===== src/Core/Id.antt =====
-- crates/tessra-core/src/id.rs and the `ObjectId` of hash.rs. An identity is the list of its bytes;
-- `IsEntityId` and `IsObjectId` are what the fixed arrays `[u8; 16]` and `[u8; 32]` guarantee.
pub mod Letters
pub mod Slices
mod Runs
use tessra.Prelude.{ℕ, zero, suc, ◌+◌, ◌*◌, ◌/◌, ◌%◌, ◌^◌, ◌<◌, ◌≡◌, Bool}
use tessra.Prelude.{List, [], ◌∷◌, ◌++◌, Option, none, some, Bytes, codes, length, All}
use tessra.Prelude.{◌==◌, if◌then◌else◌, get_elem?}
use tessra.Core.Result.{Result, ok, err, ◌>>=◌, Error}

abbrev pub EntityId : Type 0
EntityId = Bytes

abbrev pub ObjectId : Type 0
ObjectId = Bytes

abbrev pub IsByte : ℕ → Type 0
IsByte b = b < 256

abbrev pub IsEntityId : Bytes → Type 0
IsEntityId v = (length v ≡ 16) × All IsByte v

-- `EntityId::from_slice` and `ObjectId::from_slice`
unfoldable pub entity_from_slice : Bytes → Result EntityId
entity_from_slice v = if length v == 16 then ok v else err Error.id

unfoldable pub object_from_slice : Bytes → Result ObjectId
object_from_slice v = if length v == 32 then ok v else err Error.id

-- `ALPHABET`
abbrev pub alphabet : Bytes
alphabet = codes "klmnopqrstuvwxyz"

-- `ALPHABET[n]`, for `n` below 16.
unfoldable pub letter : ℕ → ℕ
letter n = elim (get_elem? alphabet n) [ none ↦ 0 | some c ↦ c ]

unfoldable pub position : Bytes → ℕ → Option ℕ
position [] c = none
position (x ∷ xs) c =
    if x == c then some 0 else elim (position xs c) [ none ↦ none | some p ↦ some (suc p) ]

unfoldable pub nibble : ℕ → Result ℕ
unfolding position
nibble c = elim (position alphabet c) [ none ↦ err Error.id | some p ↦ ok p ]

-- `b >> 4` and `b & 0x0f` are the quotient and the remainder by 2 ^ 4.
unfoldable pub to_letters : EntityId → Bytes
unfolding letter
to_letters [] = []
to_letters (b ∷ bs) = letter (b / 2 ^ 4) ∷ letter (b % 2 ^ 4) ∷ to_letters bs

-- The loop of `from_letters` over the pairs of letters. It is entered with 32 letters.
unfoldable pub read_pairs : Bytes → Result Bytes
unfolding nibble
read_pairs [] = ok []
read_pairs (x ∷ []) = err Error.id
read_pairs (x ∷ y ∷ rest) = do
  hi ← nibble x
  lo ← nibble y
  bs ← read_pairs rest
  ok ((hi * 2 ^ 4 + lo) ∷ bs)

unfoldable pub from_letters : Bytes → Result EntityId
unfolding read_pairs
from_letters s = if length s == 32 then read_pairs s else err Error.id
