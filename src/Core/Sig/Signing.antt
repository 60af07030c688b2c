-- ===== src/Core/Sig/Signing.antt =====
-- An object that was signed verifies under the signer's key.
use tessra.Prelude.{◌≡◌, refl, ap, true, false, Bytes, Option, none, some}
use tessra.Core.Result.{ok, ◌>>=◌, >>=-eq-ok, ok-injective}
use tessra.Core.Cbor.{Ciborium, encode}
use tessra.Core.Sig.{
  Ed25519, SignedObject, verify, sign, signing_message, payload, sign_with, verify_with,
}

-- What is documented of Ed25519: a key pair's public key is well formed and strong, and verifies what
-- the secret key signed.
abbrev pub IsKeyPair : Ed25519 → Bytes → Type 0
IsKeyPair ed secret =
    (ed.is_key (ed.public secret) ≡ true)
    × (ed.is_weak (ed.public secret) ≡ false)
    × ((m : Bytes) → ed.verify_strict (ed.public secret) m (ed.sign_message secret m) ≡ true)

-- The signature is a field of the object.
abbrev pub IsField : {T : Type 0} → SignedObject T → Type 0
IsField {T} o =
    ((s : Option Bytes) (x : T) → o.sig (o.set_sig s x) ≡ s)
    × ((s r : Option Bytes) (x : T) → o.set_sig s (o.set_sig r x) ≡ o.set_sig s x)

module _ (blake3 : Bytes → Bytes) (c : Ciborium) (ed : Ed25519) {T : Type 0}
    (o : SignedObject T) where
  verify-sign :
      (secret tag p : Bytes)
      → IsKeyPair ed secret
      → verify blake3 ed (ed.public secret) tag p (sign blake3 ed secret tag p) ≡ ok tt
  unfolding verify sign
  verify-sign secret tag p h = rw (h.0, h.1, h.2 (signing_message blake3 tag p)) refl

  payload-set_sig :
      (s : Option Bytes) (x : T)
      → IsField o
      → payload blake3 c ed o (o.set_sig s x) ≡ payload blake3 c ed o x
  unfolding payload
  payload-set_sig s x f = ap (λ y. encode c o.object blake3 y >>= λ e. ok e.bytes) (f.1 none s x)

  -- An object that `sign_with` signed passes `verify_with` under the public key of the signer, whatever
  -- signature it carried before, and signing changes only the signature.
  pub verify_with-sign_with :
      (secret : Bytes) (x y : T)
      → IsKeyPair ed secret
      → IsField o
      → sign_with blake3 c ed o secret x ≡ ok y
      → (verify_with blake3 c ed o (ed.public secret) y ≡ ok tt)
        × (o.set_sig none y ≡ o.set_sig none x)
  unfolding sign_with verify_with
  verify_with-sign_with secret x y h f e =
      let (p, made, e1) = >>=-eq-ok (payload blake3 c ed o x) _ e in
      let s = sign blake3 ed secret o.object.tag p in
      let same : o.set_sig (some s) x ≡ y = ok-injective e1 in
      (
        rw (← same) (
            rw (f.0 (some s) x, payload-set_sig (some s) x f, made)
              (verify-sign secret o.object.tag p h)),
        rw (← same) (f.1 none (some s) x),
      )
