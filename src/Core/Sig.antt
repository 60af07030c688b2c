-- ===== src/Core/Sig.antt =====
-- crates/tessra-core/src/sig.rs: keys, signatures, and objects that carry their signature. Ed25519 and
-- BLAKE3 are parameters.
pub mod Signing
use tessra.Prelude.{
  ℕ, Bool, true, false, ◌==◌, List, ◌++◌, Bytes, codes, length, Option, none, some, if◌then◌else◌,
}
use tessra.Core.Result.{Result, ok, err, ◌>>=◌, Error}
use tessra.Core.Cbor.{Ciborium, Object, encode}

-- What the code uses of the ed25519_dalek library.
pub record Ed25519 : Type 0 where
  pub public : Bytes → Bytes
  pub sign_message : Bytes → Bytes → Bytes
  pub is_key : Bytes → Bool
  pub is_weak : Bytes → Bool
  pub verify_strict : Bytes → Bytes → Bytes → Bool

-- A `SignedObject`, with its `sig` field.
pub record SignedObject (T : Type 0) : Type 0 where
  pub object : Object T
  pub sig : T → Option Bytes
  pub set_sig : Option Bytes → T → T

unfoldable pub key_from_slice : Bytes → Result Bytes
key_from_slice v = if length v == 32 then ok v else err Error.id

unfoldable pub signing_message : (Bytes → Bytes) → Bytes → Bytes → Bytes
signing_message blake3 tag payload =
    blake3 (codes "tessra:sig:" ++ (tag ++ (codes "\n" ++ payload)))

-- `PublicKey::verify`
unfoldable pub verify :
    (Bytes → Bytes) → Ed25519 → Bytes → Bytes → Bytes → Bytes → Result (Unit {0})
unfolding signing_message
verify blake3 ed key tag payload sig =
    if ed.is_key key
    then if ed.is_weak key
      then err Error.signature
      else if ed.verify_strict key (signing_message blake3 tag payload) sig
      then ok tt
      else err Error.signature
    else err Error.signature

-- `SecretKey::sign`
unfoldable pub sign : (Bytes → Bytes) → Ed25519 → Bytes → Bytes → Bytes → Bytes
unfolding signing_message
sign blake3 ed secret tag payload = ed.sign_message secret (signing_message blake3 tag payload)

unfoldable pub required_sig : Option Bytes → Result Bytes
required_sig none = err Error.signature
required_sig (some s) = ok s

module _ (blake3 : Bytes → Bytes) (c : Ciborium) (ed : Ed25519) {T : Type 0}
    (o : SignedObject T) where
  unfoldable pub payload : T → Result Bytes
  payload x = encode c o.object blake3 (o.set_sig none x) >>= λ e. ok e.bytes

  unfoldable pub sign_with : Bytes → T → Result T
  unfolding payload sign
  sign_with secret x =
      payload x >>= λ p. ok (o.set_sig (some (sign blake3 ed secret o.object.tag p)) x)

  unfoldable pub verify_with : Bytes → T → Result (Unit {0})
  unfolding required_sig payload verify
  verify_with key x =
      required_sig (o.sig x) >>= λ s. payload x >>= λ p. verify blake3 ed key o.object.tag p s
