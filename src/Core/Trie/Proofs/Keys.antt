-- ===== src/Core/Trie/Proofs/Keys.antt =====
-- Keys as sequences of nibbles.
use tessra.Prelude.{ℕ, zero, suc, ◌*◌, ◌/◌, ◌%◌, ◌^◌, ◌<◌, ◌≡◌, refl, ap, ap₂, ◌∙◌, arith}
use tessra.Prelude.{[], ◌∷◌, Bytes, All, length, get_elem?, Option, none, some, if◌then◌else◌, ◌==◌}
use tessra.Core.Result.{Result, ok, err, Error}
use tessra.Core.Id.{IsByte}
use tessra.Core.Trie.Node.{nibble_at}

-- A key of `len` bytes.
abbrev pub IsKey : ℕ → Bytes → Type 0
IsKey len k = (length k ≡ len) × All IsByte k

-- The nibble at a depth within the key.
unfoldable pub nib : Bytes → ℕ → ℕ
nib [] d = 0
nib (b ∷ bs) zero = b / 2 ^ 4
nib (b ∷ bs) (suc zero) = b % 2 ^ 4
nib (b ∷ bs) (suc (suc d)) = nib bs d

half_step : (d : ℕ) → (suc (suc d) / 2 ≡ suc (d / 2)) × (suc (suc d) % 2 ≡ d % 2)
half_step d = omega arith

abbrev byte_nibble : Option ℕ → ℕ → Result ℕ
byte_nibble o r = elim o [
  | none ↦ err Error.panic
  | some b ↦ ok (if r == 0 then b / 2 ^ 4 else b % 2 ^ 4)
]

nibble_at_deeper : (b : ℕ) (bs : Bytes) (d : ℕ) → nibble_at (b ∷ bs) (suc (suc d)) ≡ nibble_at bs d
unfolding nibble_at
nibble_at_deeper b bs d =
    ap₂ (λ (o : Option ℕ) (r : ℕ). byte_nibble o r) (ap (λ i. get_elem? (b ∷ bs) i) (half_step d).0)
      (half_step d).1

pub nibble_at_lem : (k : Bytes) (d : ℕ) → d < length k * 2 → nibble_at k d ≡ ok (nib k d)
unfolding nib
nibble_at_lem [] d h = absurd (omega arith)
nibble_at_lem (b ∷ bs) zero h = unfold nibble_at in refl
nibble_at_lem (b ∷ bs) (suc zero) h = unfold nibble_at in refl
nibble_at_lem (b ∷ bs) (suc (suc d)) h = nibble_at_deeper b bs d ∙ nibble_at_lem bs d (omega arith)

pub nib-lt : (k : Bytes) (d : ℕ) → All IsByte k → nib k d < 16
unfolding nib
nib-lt [] d h = omega arith
nib-lt (b ∷ bs) zero (h, hs) = omega arith
nib-lt (b ∷ bs) (suc zero) (h, hs) = omega arith
nib-lt (b ∷ bs) (suc (suc d)) (h, hs) = nib-lt bs d hs

same_byte : (a b : ℕ) → a / 2 ^ 4 ≡ b / 2 ^ 4 → a % 2 ^ 4 ≡ b % 2 ^ 4 → a ≡ b
same_byte a b h k = omega arith

-- Keys of one length that agree at every depth are equal.
pub nib-ext :
    (k j : Bytes) → length k ≡ length j → ((d : ℕ) → d < length k * 2 → nib k d ≡ nib j d) → k ≡ j
unfolding nib
nib-ext [] [] l e = refl
nib-ext [] (c ∷ j) l e = absurd (omega arith)
nib-ext (b ∷ k) [] l e = absurd (omega arith)
nib-ext (b ∷ k) (c ∷ j) l e =
    ap₂ ◌∷◌ (same_byte b c (e 0 (omega arith)) (e 1 (omega arith)))
      (nib-ext k j (omega arith) λ d h. e (suc (suc d)) (omega arith))
