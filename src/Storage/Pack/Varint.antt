-- ===== src/Storage/Pack/Varint.antt =====
-- A number of 64 bits is read back from what `write_varint` writes.
use tessra.Prelude.{
  ℕ, zero, suc, ◌+◌, ◌*◌, ◌/◌, ◌%◌, ◌^◌, ◌<◌, ◌≤◌, ◌≡◌, ap, arith, ◌++◌, Bytes, ◌==◌, ltb, inl, inr,
  Bool-cases, ==_iff, true, false, ◌∙◌,
}
use tessra.Core.Result.{ok}
use tessra.Storage.Pack.{write_varint_loop, write_varint, read_varint_loop, read_varint}
use native.Mathlib.Nat.{pow-suc}
use native.Mathlib.Numerals.{unary_clauses}

product_of_sum : (q r p : ℕ) → r * p + q * (p * 128) ≡ (r + q * 128) * p
product_of_sum q r p = grind arith

split_product : (n p : ℕ) → n % 128 * p + n / 128 * (p * 128) ≡ n * p
split_product n p = product_of_sum (n / 128) (n % 128) p ∙ ap (λ x. x * p) (omega arith)

pow_shift : (shift : ℕ) → 2 ^ (shift + 7) ≡ 2 ^ shift * 128
pow_shift shift = simp unary_clauses (omega arith)

last_byte : (n p : ℕ) → n / 128 ≡ 0 → n * p < 2 ^ 64 → n % 128 % 128 * p % 2 ^ 64 ≡ n * p
last_byte n p h small = let same : n % 128 % 128 ≡ n = omega arith in rw (same) (omega arith)

low_bits : (n p : ℕ) → n * p < 2 ^ 64 → (n % 128 + 128) % 128 * p % 2 ^ 64 ≡ n % 128 * p
low_bits n p small =
    let same : (n % 128 + 128) % 128 ≡ n % 128 = omega arith in
    rw (same) (omega (arith, split_product n p))

last_round :
    (rounds acc shift n : ℕ) (rest : Bytes)
    → (n / 128 == 0) ≡ true
    → n * 2 ^ shift < 2 ^ 64
    → read_varint_loop acc shift (write_varint_loop (suc rounds) n ++ rest)
      ≡ ok (acc + n * 2 ^ shift, rest)
unfolding read_varint_loop write_varint_loop
last_round rounds acc shift n rest done small =
    let none_left : n / 128 ≡ 0 = (==_iff (n / 128) 0).0 done in
    let stop : (n % 128 / 128 % 2 == 0) ≡ true = ground arith in
    rw (done, stop) (ap (λ x. ok (acc + x, rest)) (last_byte n (2 ^ shift) none_left small))

more_rounds :
    (rounds acc shift n : ℕ) (rest : Bytes)
    → (n / 128 == 0) ≡ false
    → shift + 7 ≤ 63
    → n * 2 ^ shift < 2 ^ 64
    → read_varint_loop acc shift (write_varint_loop (suc rounds) n ++ rest)
      ≡ read_varint_loop
          (acc + n % 128 * 2 ^ shift)
          (shift + 7)
          (write_varint_loop rounds (n / 128) ++ rest)
unfolding read_varint_loop write_varint_loop
more_rounds rounds acc shift n rest more fits small =
    let onward : ((n % 128 + 128) / 128 % 2 == 0) ≡ false = ground arith in
    let in_range : ltb 63 (shift + 7) ≡ false = ground arith in
    let rest_bytes = write_varint_loop rounds (n / 128) ++ rest in
    rw (more, onward, in_range)
      (ap (λ x. read_varint_loop (acc + x) (shift + 7) rest_bytes) (low_bits n (2 ^ shift) small))

rest_small : (n shift : ℕ) → n * 2 ^ shift < 2 ^ 64 → n / 128 * 2 ^ (shift + 7) < 2 ^ 64
rest_small n shift small = rw (pow_shift shift) (omega (arith, split_product n (2 ^ shift)))

read_loop-write_loop :
    (rounds acc shift n : ℕ) (rest : Bytes)
    → shift + 7 * rounds ≤ 63
    → n < 128 ^ suc rounds
    → n * 2 ^ shift < 2 ^ 64
    → read_varint_loop acc shift (write_varint_loop (suc rounds) n ++ rest)
      ≡ ok (acc + n * 2 ^ shift, rest)
read_loop-write_loop zero acc shift n rest fits big small =
    last_round zero acc shift n rest ((==_iff (n / 128) 0).1 (omega arith)) small
read_loop-write_loop (suc rounds) acc shift n rest fits big small =
    elim (Bool-cases (n / 128 == 0)) [
      | inl done ↦ last_round (suc rounds) acc shift n rest done small
      | inr more ↦
          more_rounds (suc rounds) acc shift n rest more (omega arith) small
          ∙ read_loop-write_loop rounds (acc + n % 128 * 2 ^ shift) (shift + 7) (n / 128) rest
              (omega arith) (omega (arith, pow-suc 128 (suc rounds))) (rest_small n shift small)
          ∙ ap (λ x. ok (x, rest))
              (rw (pow_shift shift) (omega (arith, split_product n (2 ^ shift))))
    ]

-- A number of 64 bits is read back from the front of the bytes that `write_varint` writes.
pub read_varint-write_varint :
    (n : ℕ) (rest : Bytes) → n < 2 ^ 64 → read_varint (write_varint n ++ rest) ≡ ok (n, rest)
unfolding read_varint write_varint
read_varint-write_varint n rest small =
    read_loop-write_loop 9 0 0 n rest (omega arith) (omega arith) (omega arith)
    ∙ ap (λ x. ok (x, rest)) (omega arith)
