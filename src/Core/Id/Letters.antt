-- ===== src/Core/Id/Letters.antt =====
-- The letters of an entity ID: what `to_letters` writes, `from_letters` alone reads back.
use tessra.Prelude.{ℕ, ◌+◌, ◌-◌, ◌*◌, ◌/◌, ◌%◌, ◌^◌, ◌≤◌, ◌<◌, ◌≡◌, refl, ap, arith}
use tessra.Prelude.{[], ◌∷◌, Bytes, length, All, true}
use tessra.Prelude.{
  ◌==◌, ==_iff, if◌then◌else◌, leb, ◌&&◌, passes_below, passes_below_sound, Bool-cases, inl, inr,
  subst,
}
use tessra.Core.Result.{ok, err, >>=-eq-ok, ok-injective, Error}
use tessra.Core.Id.{EntityId, IsByte, IsEntityId, letter, nibble, to_letters}
use tessra.Core.Id.{read_pairs, from_letters}

-- A letter of the alphabet, `k` to `z`.
abbrev pub IsLetter : ℕ → Type 0
IsLetter c = (107 ≤ c) × (c < 123)

letter_table : passes_below (λ n. letter n == 107 + n) 16 ≡ true
unfolding passes_below letter
letter_table = refl

letter_lem : (n : ℕ) → n < 16 → letter n ≡ 107 + n
letter_lem n h = (==_iff _ _).0 (passes_below_sound _ 16 letter_table n h)

nibble_lem : (c : ℕ) → nibble c ≡ (if leb 107 c && leb c 122 then ok (c - 107) else err Error.id)
unfolding nibble
nibble_lem c = ground arith

letter-IsLetter : (n : ℕ) → n < 16 → IsLetter (letter n)
letter-IsLetter n h = omega (arith, letter_lem n h)

nibble-letter : (n : ℕ) → n < 16 → nibble (letter n) ≡ ok n
nibble-letter n h = rw (letter_lem n h, nibble_lem) (ground arith)

-- One byte is written as two letters, and two letters are read as one byte.
to_letters_shape :
    (id : Bytes)
    → All IsByte id
    → (length (to_letters id) ≡ 2 * length id) × All IsLetter (to_letters id)
unfolding to_letters
to_letters_shape [] h = omega arith
to_letters_shape (b ∷ bs) (hb, hbs) =
    let (len, rest) = to_letters_shape bs hbs in
    (
      omega arith,
      (
        letter-IsLetter (b / 2 ^ 4) (omega arith),
        (letter-IsLetter (b % 2 ^ 4) (omega arith), rest),
      ),
    )

read_pairs-to_letters : (id : Bytes) → All IsByte id → read_pairs (to_letters id) ≡ ok id
unfolding read_pairs to_letters
read_pairs-to_letters [] h = refl
read_pairs-to_letters (b ∷ bs) (hb, hbs) =
    rw
      (
        nibble-letter (b / 2 ^ 4) (omega arith),
        nibble-letter (b % 2 ^ 4) (omega arith),
        read_pairs-to_letters bs hbs,
      )
      (ap ok (ap (λ v. v ∷ bs) (omega arith)))

if_32 : (s : Bytes) → length s ≡ 32 → (length s == 32) ≡ true
if_32 s h = (==_iff (length s) 32).1 h

-- `from_letters` reads back the 32 letters that `to_letters` writes for a 16-byte ID.
from_letters-to_letters : (id : EntityId) → IsEntityId id → from_letters (to_letters id) ≡ ok id
unfolding from_letters
from_letters-to_letters id h =
    rw (if_32 (to_letters id) (omega (arith, (to_letters_shape id h.1).0)))
      (read_pairs-to_letters id h.1)

nibble_inv : (c n : ℕ) → nibble c ≡ ok n → (n < 16) × (letter n ≡ c)
nibble_inv c n e = ground (arith, nibble_lem c, letter_lem n)

byte_of_pair :
    (hi lo : ℕ)
    → hi < 16
    → lo < 16
    → ((hi * 2 ^ 4 + lo) / 2 ^ 4 ≡ hi) × ((hi * 2 ^ 4 + lo) % 2 ^ 4 ≡ lo)
byte_of_pair hi lo h k = omega arith

read_pairs_inv :
    (s id : Bytes)
    → read_pairs s ≡ ok id
    → (to_letters id ≡ s) × All IsByte id × (2 * length id ≡ length s)
unfolding read_pairs to_letters
read_pairs_inv [] [] e = (refl, tt, omega arith)
read_pairs_inv [] (b ∷ bs) e = cc
read_pairs_inv (x ∷ []) id e = cc
read_pairs_inv (x ∷ y ∷ s) id e =
    let (hi, ehi, e1) = >>=-eq-ok (nibble x) _ e in
    let (lo, elo, e2) = >>=-eq-ok (nibble y) _ e1 in
    let (bs, ebs, e3) = >>=-eq-ok (read_pairs s) _ e2 in
    let (hx, lx) = nibble_inv x hi ehi in
    let (hy, ly) = nibble_inv y lo elo in
    let (same, bytes, len) = read_pairs_inv s bs ebs in
    let (q, r) = byte_of_pair hi lo hx hy in
    subst (λ v. (to_letters v ≡ x ∷ y ∷ s) × All IsByte v × (2 * length v ≡ length (x ∷ y ∷ s)))
      (ok-injective e3) (rw (q, r, lx, ly, same), (omega arith, bytes), omega arith)

not_ok : {id : Bytes} → ¬ (err Error.id ≡ ok id)
not_ok e = cc

-- A text that `from_letters` accepts is the one that `to_letters` writes for the result, which is a
-- 16-byte ID: no ID has two spellings.
to_letters-from_letters :
    (s : Bytes) (id : EntityId) → from_letters s ≡ ok id → (to_letters id ≡ s) × IsEntityId id
unfolding from_letters
to_letters-from_letters s id e = elim (Bool-cases (length s == 32)) [
  | inl fits ↦
      let (same, bytes, len) = read_pairs_inv s id (rw fits at e) in
      (same, (omega (arith, (==_iff (length s) 32).0 fits), bytes))
  | inr other ↦ absurd (not_ok (rw other at e))
]
