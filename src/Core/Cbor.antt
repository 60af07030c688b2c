-- ===== src/Core/Cbor.antt =====
-- crates/tessra-core/src/cbor.rs: deterministic CBOR and the envelope of objects. The reader and the
-- writer of the ciborium library and the serde forms of a type are parameters.
pub mod Canonical
pub mod Envelope
pub mod RoundTrip
pub mod Runs
use tessra.Prelude.{
  ℕ, ◌^◌, ltb, Bool, true, false, ◌||◌, not, List, [], ◌∷◌, Bytes, codes, Option, none, some,
  if◌then◌else◌, eqb, ordering, list_ord, nat_ord, sort_by, Ordering,
}
use tessra.Core.Result.{Result, ok, err, ◌>>=◌, Error}
use tessra.Core.Id.{ObjectId}
use tessra.Core.Hash.{object_id}
use tessra.Core.Value.{Value, Values, Entries}

-- `ciborium::de::from_reader` and `ciborium::ser::into_writer`.
pub record Ciborium : Type 0 where
  pub read : Bytes → Result Value
  pub write : Value → Result Bytes

-- A `TessraObject`: its tag, its version, `Value::serialized` and `deserialized` at its type.
pub record Object (T : Type 0) : Type 0 where
  pub tag : Bytes
  pub version : ℕ
  pub serialize : T → Result Value
  pub deserialize : Value → Result T

pub record Encoded : Type 0 where
  pub bytes : Bytes
  pub id : ObjectId

-- A key with its encoded form, and the value.
pub record Keyed : Type 0 where
  pub bytes : Bytes
  pub key : Value
  pub value : Value

abbrev pub by_bytes : Keyed → Keyed → Ordering
by_bytes a b = ordering a.bytes b.bytes

-- `windows(2)`
unfoldable pub has_duplicate_after : Keyed → List Keyed → Bool
has_duplicate_after a [] = false
has_duplicate_after a (b ∷ ks) = eqb a.bytes b.bytes || has_duplicate_after b ks

unfoldable pub has_duplicate : List Keyed → Bool
unfolding has_duplicate_after
has_duplicate [] = false
has_duplicate (a ∷ ks) = has_duplicate_after a ks

unfoldable pub unkeyed : List Keyed → Entries
unkeyed [] = Entries.no_entry
unkeyed (a ∷ ks) = Entries.entry a.key a.value (unkeyed ks)

-- The map of the entries in order, unless two have one key.
unfoldable pub map_of : List Keyed → Result Value
unfolding has_duplicate unkeyed
map_of ks = if has_duplicate ks then err Error.not_canonical else ok (Value.map (unkeyed ks))

unfoldable pub push_entry : Value → Value → Entries → Entries
push_entry k v Entries.no_entry = Entries.entry k v Entries.no_entry
push_entry k v (Entries.entry j w es) = Entries.entry j w (push_entry k v es)

-- The entries of an envelope, as `decode` reads them: the tag, the version, or one of the object's.
pub data Field : Type 0 where
  is_tag : Bytes → Field
  is_version : Result ℕ → Field
  is_other : Field

-- `u64::try_from`
unfoldable pub as_u64 : Value → Result ℕ
as_u64 (Value.integer n) = if ltb n (2 ^ 64) then ok n else err Error.decode
as_u64 _ = err Error.decode

unfoldable pub field : Value → Value → Field
unfolding as_u64
field (Value.text key) (Value.text t) =
    if eqb key (codes "t") then Field.is_tag t else Field.is_other
field (Value.text key) (Value.integer n) =
    if eqb key (codes "v") then Field.is_version (as_u64 (Value.integer n)) else Field.is_other
field (Value.text key) (Value.negative n) =
    if eqb key (codes "v") then Field.is_version (err Error.decode) else Field.is_other
field _ _ = Field.is_other

-- The loop of `decode`: the last tag and the last version, and the other entries in order.
pub record Opened : Type 0 where
  pub tag : Option Bytes
  pub version : Option ℕ
  pub rest : Entries

unfoldable pub open_entries : Option Bytes → Option ℕ → Entries → Entries → Result Opened
unfolding field push_entry
open_entries tag version rest Entries.no_entry =
    ok (record { tag = tag; version = version; rest = rest })
open_entries tag version rest (Entries.entry k v es) = elim (field k v) [
  | Field.is_tag t ↦ open_entries (some t) version rest es
  | Field.is_version (ok n) ↦ open_entries tag (some n) rest es
  | Field.is_version (err e) ↦ err e
  | Field.is_other ↦ open_entries tag version (push_entry k v rest) es
]

unfoldable pub entries_of : Value → Result Entries
entries_of (Value.map es) = ok es
entries_of _ = err Error.decode

unfoldable pub entries_to_encode : Value → Result Entries
entries_to_encode (Value.map es) = ok es
entries_to_encode _ = err Error.encode

unfoldable pub tag_of_entries : Entries → Result Bytes
tag_of_entries Entries.no_entry = err Error.decode
tag_of_entries (Entries.entry (Value.text key) (Value.text t) es) =
    if eqb key (codes "t") then ok t else tag_of_entries es
tag_of_entries (Entries.entry k v es) = tag_of_entries es

unfoldable pub require_tag : Bytes → Option Bytes → Result (Unit {0})
require_tag expected none = err Error.decode
require_tag expected (some t) = if eqb t expected then ok tt else err Error.wrong_type

unfoldable pub require_version : ℕ → Option ℕ → Result (Unit {0})
require_version known none = err Error.decode
require_version known (some n) = if ltb known n then err Error.version else ok tt

unfoldable pub require_bytes : Bytes → Bytes → Result (Unit {0})
require_bytes reencoded bytes = if eqb reencoded bytes then ok tt else err Error.not_canonical

module _ (c : Ciborium) where
  unfoldable mutual
    unfolding map_of

    pub canonicalize : Value → Result Value
    canonicalize (Value.map es) = keyed es >>= λ ks. map_of (sort_by by_bytes ks)
    canonicalize (Value.array vs) = canonicalize_all vs >>= λ ws. ok (Value.array ws)
    canonicalize (Value.float f) = err Error.not_canonical
    canonicalize (Value.tag n v) = err Error.not_canonical
    canonicalize v = ok v

    pub canonicalize_all : Values → Result Values
    canonicalize_all Values.nothing = ok Values.nothing
    canonicalize_all (Values.item v vs) =
        canonicalize v >>= λ w. canonicalize_all vs >>= λ ws. ok (Values.item w ws)

    -- The loop over the entries of a map.
    pub keyed : Entries → Result (List Keyed)
    keyed Entries.no_entry = ok []
    keyed (Entries.entry k v es) = canonicalize k >>= λ k'. canonicalize v >>= λ v'.
        c.write k' >>= λ kb.
        keyed es >>= λ ks. ok (record { bytes = kb; key = k'; value = v' } ∷ ks)

  unfoldable pub canonical_bytes : Value → Result Bytes
  unfolding canonicalize
  canonical_bytes v = canonicalize v >>= λ w. c.write w

  -- Reading with the check of the form, which `decode` and `from_canonical_bytes` begin with.
  unfoldable pub read_canonical : Bytes → Result Value
  unfolding canonical_bytes require_bytes
  read_canonical bytes = c.read bytes >>= λ v.
      canonical_bytes v >>= λ reencoded. require_bytes reencoded bytes >>= λ _. ok v

  unfoldable pub peek_tag : Bytes → Result Bytes
  unfolding tag_of_entries entries_of
  peek_tag bytes = c.read bytes >>= λ v. entries_of v >>= λ es. tag_of_entries es

  module _ {T : Type 0} (o : Object T) where
    unfoldable pub to_canonical_bytes : T → Result Bytes
    unfolding canonical_bytes
    to_canonical_bytes x = o.serialize x >>= λ v. canonical_bytes v

    unfoldable pub from_canonical_bytes : Bytes → Result T
    unfolding read_canonical
    from_canonical_bytes bytes = read_canonical bytes >>= λ v. o.deserialize v

    -- The map that `encode` writes.
    unfoldable pub envelope : Entries → Value
    unfolding push_entry
    envelope es = Value.map (
        push_entry (Value.text (codes "v")) (Value.integer o.version)
          (push_entry (Value.text (codes "t")) (Value.text o.tag) es))

    unfoldable pub encode : (Bytes → Bytes) → T → Result Encoded
    unfolding entries_to_encode envelope canonical_bytes
    encode blake3 x = o.serialize x >>= λ v. entries_to_encode v >>= λ es.
        canonical_bytes (envelope es) >>= λ bytes.
        ok (record { bytes = bytes; id = object_id blake3 o.tag bytes })

    unfoldable pub open_object : Opened → Result T
    unfolding require_tag require_version
    open_object d = require_tag o.tag d.tag >>= λ _.
        require_version o.version d.version >>= λ _. o.deserialize (Value.map d.rest)

    unfoldable pub decode : Bytes → Result T
    unfolding read_canonical entries_of open_entries open_object
    decode bytes = read_canonical bytes >>= λ v.
        entries_of v >>= λ es. open_entries none none Entries.no_entry es >>= λ d. open_object d
