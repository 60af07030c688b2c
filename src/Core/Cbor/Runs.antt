-- ===== src/Core/Cbor/Runs.antt =====
-- A small reader and writer, and the theorems at concrete inputs.
use tessra.Prelude.{
  ◌≡◌, refl, sym, ap, subst, ◌++◌, eqb_refl, arith, true, false, ◌==◌, [], ◌∷◌, Bytes, codes, All,
  none, some, Option, if◌then◌else◌, eqb, sort_by, insert_sorted, list_ord, nat_ord, Bool-cases,
  inl, inr,
}
use mathlib.Core.Bool.{decide}
use native.Mathlib.Decide.{ℕ_discrete}
use tessra.Core.Result.{Result, ok, err, ok-injective, Error}
use tessra.Core.Value.{Value, Entries, value_eq, value_eq_iff, Value-discrete}
use tessra.Core.Hash.{object_id}
use tessra.Core.Cbor.{Ciborium, Object, Encoded, canonicalize, keyed, encode, decode}
use tessra.Core.Cbor.Canonical.{ReadsBack, decode-canonical}
use tessra.Core.Cbor.Envelope.{own}
use tessra.Core.Cbor.RoundTrip.{IsSerde, decode-encode}
use tessra.Core.Sig.{Ed25519, SignedObject, sign_with, verify_with}
use tessra.Core.Sig.Signing.{verify_with-sign_with}

-- The envelope of an object without fields.
abbrev bare : Value
bare = Value.map (
    Entries.entry (Value.text (codes "t")) (Value.text (codes "mark"))
      (Entries.entry (Value.text (codes "v")) (Value.integer 1) Entries.no_entry))

-- Texts and that envelope are written, and nothing else.
abbrev write_small : Value → Result Bytes
write_small (Value.text t) = ok (1 ∷ t)
write_small (Value.map es) = if value_eq (Value.map es) bare then ok (0 ∷ []) else err Error.encode
write_small v = err Error.encode

abbrev read_small : Bytes → Result Value
read_small [] = err Error.decode
read_small (b ∷ t) = if b == 0 then ok bare else ok (Value.text t)

abbrev small : Ciborium
small = record { read = read_small; write = write_small }

small-ReadsBack : ReadsBack small
small-ReadsBack (Value.text t) b e =
    subst (λ x. read_small x ≡ ok (Value.text t)) (ok-injective e) refl
small-ReadsBack (Value.map es) b e = elim (Bool-cases (value_eq (Value.map es) bare)) [
  | inl same ↦
      subst (λ x. read_small x ≡ ok (Value.map es)) (ok-injective (rw same at e))
        (ap ok (sym ((value_eq_iff (Value.map es) bare).0 same)))
  | inr other ↦ absurd (cc (rw other at e))
]
small-ReadsBack (Value.array vs) b e = cc
small-ReadsBack (Value.float f) b e = cc
small-ReadsBack (Value.tag n v) b e = cc
small-ReadsBack (Value.integer n) b e = cc
small-ReadsBack (Value.negative n) b e = cc
small-ReadsBack (Value.bytes x) b e = cc
small-ReadsBack (Value.boolean x) b e = cc
small-ReadsBack Value.null b e = cc

abbrev mark : Object Bytes
mark = record {
  tag = codes "mark";
  version = 1;
  serialize = λ x. ok (Value.map Entries.no_entry);
  deserialize = λ v. ok [];
}

mark-IsSerde : IsSerde small mark []
unfolding keyed
mark-IsSerde Entries.no_entry ks s k =
    (subst (λ l. All (λ a. own a ≡ true) l) (ok-injective k) tt, refl)
mark-IsSerde (Entries.entry j w es) ks s k = cc

abbrev flat : Bytes → Bytes
flat b = 9 ∷ b

abbrev encoded : Encoded
encoded = record { bytes = 0 ∷ []; id = object_id flat (codes "mark") (0 ∷ []) }

mark-encoded : encode small mark flat [] ≡ ok encoded
unfolding encode eqb sort_by insert_sorted value_eq Value-discrete decide ℕ_discrete
mark-encoded = refl

mark_decoded : decode small mark (0 ∷ []) ≡ ok []
unfolding decode eqb sort_by insert_sorted value_eq Value-discrete decide ℕ_discrete
mark_decoded = refl

other_order :
    canonicalize small (
      Value.map (
        Entries.entry
          (Value.text (codes "v"))
          (Value.integer 1)
          (Entries.entry (Value.text (codes "t")) (Value.text (codes "mark")) Entries.no_entry)))
    ≡ ok bare
unfolding canonicalize eqb sort_by insert_sorted
other_order = refl

key_twice :
    canonicalize small (
      Value.map (
        Entries.entry
          (Value.text [])
          Value.null
          (Entries.entry (Value.text []) Value.null Entries.no_entry)))
    ≡ err Error.not_canonical
unfolding canonicalize eqb sort_by insert_sorted
key_twice = refl

decode-encode_example :
    (decode small mark encoded.bytes ≡ ok [])
    × (encoded.id ≡ object_id flat (codes "mark") encoded.bytes)
decode-encode_example =
    decode-encode small mark flat [] encoded small-ReadsBack mark-IsSerde (omega arith) mark-encoded

decode-canonical_example :
    (v : Value) × (read_small (0 ∷ []) ≡ ok v)
    × (canonicalize small v ≡ ok v)
    × (write_small v ≡ ok (0 ∷ []))
    × ((b : Bytes) (y : Bytes) → decode small mark b ≡ ok y → read_small b ≡ ok v → b ≡ 0 ∷ [])
decode-canonical_example = decode-canonical small mark (0 ∷ []) [] small-ReadsBack mark_decoded

-- A signed object is its signature, and a signature is the message after the key.
abbrev ed : Ed25519
ed = record {
  public = λ k. k;
  sign_message = λ k m. m;
  is_key = λ k. true;
  is_weak = λ k. false;
  verify_strict = λ k m s. eqb m s;
}

abbrev signed : SignedObject (Option Bytes)
signed = record {
  object = record {
    tag = codes "mark";
    version = 1;
    serialize = λ x. ok (Value.map Entries.no_entry);
    deserialize = λ v. ok none;
  };
  sig = λ x. x;
  set_sig = λ s x. s;
}

abbrev signature : Bytes
signature = 9 ∷ codes "tessra:sig:mark\n" ++ (0 ∷ [])

mark_signed : sign_with flat small ed signed [] none ≡ ok (some signature)
unfolding sign_with encode eqb sort_by insert_sorted value_eq Value-discrete decide ℕ_discrete
mark_signed = refl

verify_with-sign_with_example :
    (verify_with flat small ed signed [] (some signature) ≡ ok tt)
    × (◌≡◌ {A = Option Bytes} none none)
verify_with-sign_with_example =
    verify_with-sign_with flat small ed signed [] none (some signature)
      (refl, refl, λ m. eqb_refl m) (λ s x. refl, λ s r x. refl) mark_signed
