-- ===== src/Oplog/Standard/Numbers.antt =====
-- crates/tessra-oplog/src/standard.rs: the numbers of clauses and attestations, read as an `i64`. An `i64`
-- is the number of values below it, so that its order is that of ℕ.
use tessra.Prelude.{
  ℕ, ◌+◌, ◌-◌, ◌*◌, ◌%◌, ◌^◌, Bool, ◌&&◌, [], ◌∷◌, Bytes, Option, none, some, if◌then◌else◌, leb,
  ◌==◌,
}
use tessra.Core.Value.{Value}

abbrev pub zero_i64 : ℕ
zero_i64 = 2 ^ 63

-- `i128::from(*i) as i64`
unfoldable pub i64_of_integer : ℕ → ℕ
i64_of_integer n = (n + 2 ^ 63) % 2 ^ 64

unfoldable pub i64_of_negative : ℕ → ℕ
i64_of_negative n = (2 ^ 64 + 2 ^ 63 - 1 - n % 2 ^ 64) % 2 ^ 64

abbrev pub is_digit : ℕ → Bool
is_digit c = leb 48 c && leb c 57

unfoldable pub read_digits : ℕ → Bytes → Option ℕ
read_digits n [] = some n
read_digits n (c ∷ cs) =
    let rest = read_digits (n * 10 + (c - 48)) cs in if is_digit c then rest else none

abbrev pub below : ℕ → Option ℕ → Option ℕ
below bound none = none
below bound (some n) = if leb n bound then some n else none

abbrev pub add_zero : Option ℕ → Option ℕ
add_zero none = none
add_zero (some n) = some (zero_i64 + n)

abbrev pub from_zero : Option ℕ → Option ℕ
from_zero none = none
from_zero (some n) = some (zero_i64 - n)

-- A text without digits is no number.
unfoldable pub read_magnitude : Bytes → Option ℕ
unfolding read_digits
read_magnitude [] = none
read_magnitude (c ∷ cs) = read_digits 0 (c ∷ cs)

-- `parse::<i64>`; 43 is `+` and 45 is `-`.
unfoldable pub parse_i64 : Bytes → Option ℕ
unfolding read_magnitude
parse_i64 [] = none
parse_i64 (c ∷ cs) =
    if c == 45
    then from_zero (below (2 ^ 63) (read_magnitude cs))
    else if c == 43
    then add_zero (below (2 ^ 63 - 1) (read_magnitude cs))
    else add_zero (below (2 ^ 63 - 1) (read_magnitude (c ∷ cs)))

-- The number of an argument: `arg_u` and `bound`.
unfoldable pub number_of : Option Value → Option ℕ
unfolding i64_of_integer i64_of_negative parse_i64
number_of (some (Value.integer n)) = some (i64_of_integer n)
number_of (some (Value.negative n)) = some (i64_of_negative n)
number_of (some (Value.text t)) = parse_i64 t
number_of _ = none
