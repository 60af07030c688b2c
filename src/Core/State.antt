-- ===== src/Core/State.antt =====
-- Fallible code over a store: `&self` methods that return `Result` and write to the object store.
use tessra.Prelude.{◌≡◌, refl, ap}
use tessra.Core.Result.{Result, ok, err, Error}

abbrev pub M : Type 0 → Type 0 → Type 0
M S A = S → Result (A × S)

module _ {S : Type 0} where
  abbrev pub ret : {A : Type 0} → A → M S A
  ret a = λ s. ok (a, s)

  abbrev pub fail : {A : Type 0} → Error → M S A
  fail e = λ s. err e

  infixl 5 ◌>>=◌ ◌>>◌
  abbrev pub ◌>>=◌ : {A B : Type 0} → M S A → (A → M S B) → M S B
  ◌>>=◌ m f = λ s. elim (m s) [ ok (a, s') ↦ f a s' | err e ↦ err e ]

  abbrev pub ◌>>◌ : {A B : Type 0} → M S A → M S B → M S B
  ◌>>◌ m k = λ s. elim (m s) [ ok (a, s') ↦ k s' | err e ↦ err e ]

  abbrev pub lift : {A : Type 0} → Result A → M S A
  lift r = λ s. elim r [ ok a ↦ ok (a, s) | err e ↦ err e ]

module _ {S : Type 0} {A B : Type 0} where
  -- A step that succeeds goes on in its state.
  pub >>=-ok :
      (m : M S A) (f : A → M S B) {s s' : S} {a : A} → m s ≡ ok (a, s') → (m >>= f) s ≡ f a s'
  >>=-ok m f e = ap (λ r. elim r as (λ _. Result (B × S)) [ ok (a, s') ↦ f a s' | err e ↦ err e ]) e

  pub lift-ok : (r : Result A) (f : A → M S B) {s : S} {a : A} → r ≡ ok a → (lift r >>= f) s ≡ f a s
  lift-ok r f {s} e = >>=-ok (lift r) f (ap (λ r. lift r s) e)

  bound_from :
      (r : Result (A × S)) (f : A → M S B) {p : B × S}
      → elim r as (λ _. Result (B × S)) [ ok (a, s) ↦ f a s | err e ↦ err e ] ≡ ok p
      → (q : A × S) × (r ≡ ok q) × (f q.0 q.1 ≡ ok p)
  bound_from (ok q) f e = (q, refl, e)
  bound_from (err x) f e = absurd (err-ok e)
    where
      err-ok : {p : B × S} → err x ≡ ok p → ⊥
      err-ok e = cc

  -- Inversion of a successful step.
  pub >>=-eq-ok :
      (m : M S A) (f : A → M S B) {s : S} {p : B × S}
      → (m >>= f) s ≡ ok p
      → (q : A × S) × (m s ≡ ok q) × (f q.0 q.1 ≡ ok p)
  >>=-eq-ok m f {s} e = bound_from (m s) f e
