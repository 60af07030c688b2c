-- ===== src/Core/Value.antt =====
-- The CBOR values that views and operations carry (`ciborium::value::Value`).
use tessra.Prelude.{ℕ, ◌≡◌, refl, Bool, true, Bytes, ◌↔◌}
use mathlib.Core.Bool.{decide}
use native.Mathlib.Decide.{ℕ_discrete}

-- An integer is `integer n`, or `negative n` for `-1 - n`; a float is its bits, a text its bytes.
mutual
  pub data Value : Type 0 where
    integer negative float : ℕ → Value
    bytes text : Bytes → Value
    boolean : Bool → Value
    null : Value
    tag : ℕ → Value → Value
    array : Values → Value
    map : Entries → Value

  pub data Values : Type 0 where
    nothing : Values
    item : Value → Values → Values

  pub data Entries : Type 0 where
    no_entry : Entries
    entry : Value → Value → Entries → Entries

unfoldable pub Value-discrete : Discrete Value
Value-discrete = hlevel ℕ_discrete

-- `==` on values.
unfoldable pub value_eq : Value → Value → Bool
unfolding Value-discrete
value_eq a b = decide (Value-discrete a b)

pub value_eq_iff : (a b : Value) → (value_eq a b ≡ true) ↔ (a ≡ b)
unfolding value_eq decide
value_eq_iff a b = elim (Value-discrete a b) as (λ x. (decide x ≡ true) ↔ (a ≡ b)) [
  | yes e ↦ (λ h. e, λ h. refl)
  | no n ↦ (λ h. cc, λ h. absurd (n h))
]
