-- ===== src/Core/Result.antt =====
-- The errors of the crates (lib.rs of tessra-core, tessra-oplog and tessra-store, and the refusals of
-- tessra-daemon), without the text of their messages, and the `?` operator.
use tessra.Prelude.{ℕ, ◌≡◌, refl, Bytes}

pub data Error : Type 0 where
  encode decode not_canonical wrong_type version id store invariant other signature throttled io
        pack :
      Error
  -- An index out of bounds, which panics; `stuck` is no value of the program: fuel ran out.
  panic stuck : Error
  not_found : Bytes → Error
  unknown_parent : Bytes → Error
  rejected : ℕ → Error

pub data Result {ℓ} (T : Type ℓ) : Type ℓ where
  err : Error → Result T
  ok : T → Result T

-- `?`: the rest of the function runs on a value, and an error is returned.
infixl 5 ◌>>=◌
abbrev pub ◌>>=◌ {ℓ κ} : {T : Type ℓ} {U : Type κ} → Result T → (T → Result U) → Result U
◌>>=◌ r rest = elim r [ err e ↦ err e | ok t ↦ rest t ]

pub ok-injective {ℓ} : {T : Type ℓ} {a b : T} → ok a ≡ ok b → a ≡ b
ok-injective h = cc

module _ {T U : Type 0} where
  -- What a chain that succeeded went through.
  pub >>=-eq-ok :
      (r : Result T) (rest : T → Result U) {u : U}
      → (r >>= rest) ≡ ok u
      → (t : T) × (r ≡ ok t) × (rest t ≡ ok u)
  >>=-eq-ok (err x) rest e = cc
  >>=-eq-ok (ok t) rest e = (t, refl, e)
