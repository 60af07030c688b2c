-- ===== src/Oplog/Verify/Objects.antt =====
-- crates/tessra-core/src/object.rs: the objects that verification reads, with the fields that it reads,
-- and the store that holds them.
use tessra.Prelude.{
  ℕ, Bool, true, false, List, Bytes, Option, none, some, if◌then◌else◌, is_some, eqb, list_ord,
  nat_ord,
}
use tessra.Core.Result.{Result, ok, err, ◌>>=◌, Error}
use tessra.Core.Id.{EntityId, ObjectId}
use tessra.Core.Hash.{object_id}
use tessra.Core.Cbor.{Ciborium, Object, decode}
use tessra.Core.Sig.{Ed25519, SignedObject, verify_with}
use tessra.Oplog.View.Data.{View, Op}
use tessra.Oplog.Standard.Data.{Flags, NodeIndex, Attestation, Standard}
use tessra.Oplog.Dag.Store.{OpStore}
use tessra.Oplog.Capability.{Capability, CapabilityStore, Principal}

pub data EntryKind : Type 0 where
  file dir symlink artifact conflict : EntryKind

-- `sign` is the byte of an `i8`.
pub record ConflictTerm : Type 0 where
  pub sign : ℕ
  pub kind : EntryKind
  pub mode : Option ℕ
  pub ref : ObjectId

pub record TreeEntry : Type 0 where
  pub name : Bytes
  pub kind : EntryKind
  pub mode : Option ℕ
  pub ref : Option ObjectId
  pub terms : Option (List ConflictTerm)

pub record Tree : Type 0 where
  pub entries : Option (List TreeEntry)
  pub shards : Option (List (Option ObjectId))

pub record Snapshot : Type 0 where
  pub root : ObjectId
  pub index : Option ObjectId

pub record Revision : Type 0 where
  pub id : EntityId
  pub prev : Option ObjectId
  pub snapshots : List (Bytes × ObjectId)
  pub parents : List ObjectId
  pub intent : Option EntityId
  pub author : EntityId
  pub flags : Option Flags

pub record Hook : Type 0 where
  pub run_as : EntityId

pub record Memory : Type 0 where
  pub scope_kind : Bytes

pub record Claim : Type 0 where
  pub id : EntityId
  pub principal : EntityId

pub record Intent : Type 0 where
  pub legacy : Option Bool

pub record Line : Type 0 where
  pub standard : EntityId

-- The store of the log, with the raw bytes of its objects and the forms of their types. `index_meta` is
-- `meta` at the key `idx:` of a snapshot, in which a daemon keeps the index that it computed.
pub record Objects : Type 1 where
  pub log : OpStore
  pub get_bytes : log.nodes.State → ObjectId → Result (Option Bytes)
  pub index_meta : log.nodes.State → ObjectId → Result (Option Bytes)
  pub blake3 : Bytes → Bytes
  pub cbor : Ciborium
  pub ed : Ed25519
  pub view : Object View
  pub revision : Object Revision
  pub snapshot : Object Snapshot
  pub tree : Object Tree
  pub hook : Object Hook
  pub memory : Object Memory
  pub claim : Object Claim
  pub intent : Object Intent
  pub line : Object Line
  pub attestation : Object Attestation
  pub standard : Object Standard
  pub node_index : Object NodeIndex
  pub capability : SignedObject Capability
  pub principal : SignedObject Principal
  pub op : SignedObject Op

abbrev pub State : Objects → Type 0
State db = db.log.nodes.State

-- `.ok_or(tessra_core::Error::NotFound(..))`
unfoldable pub found : ObjectId → Option Bytes → Result Bytes
found i none = err (Error.not_found i)
found i (some b) = ok b

module _ (db : Objects) where
  open db use {log, get_bytes, blake3, cbor, ed}

  -- The check of `ObjectStore::get` on the bytes that it was given.
  unfoldable pub decode_checked : {T : Type 0} → Object T → ObjectId → Bytes → Result T
  decode_checked o i bytes =
      if eqb (object_id blake3 o.tag bytes) i then decode cbor o bytes else err Error.store

  -- `ObjectStore::get`
  unfoldable pub get_object : {T : Type 0} → Object T → State db → ObjectId → Result T
  unfolding found decode_checked
  get_object o s i = get_bytes s i >>= λ r. found i r >>= λ b. decode_checked o i b

  -- `ObjectStore::has`
  unfoldable pub has_object : State db → ObjectId → Result Bool
  has_object s i = get_bytes s i >>= λ r. ok (is_some r)

  unfoldable pub is_signed : {T : Type 0} → SignedObject T → T → Bytes → Result (Unit {0})
  is_signed o x key = verify_with blake3 cbor ed o key x

  abbrev pub passed : Result (Unit {0}) → Bool
  passed (ok _) = true
  passed (err _) = false

  -- What the delegation chain of a capability is checked against.
  abbrev pub capability_store : CapabilityStore
  capability_store = record {
    nodes = log.nodes;
    load_principal = get_object db.principal.object;
    load_capability = get_object db.capability.object;
    verify_with = λ c key. passed (is_signed db.capability c key);
  }

-- A check of a step, `.ok_or_else(..)?` and `map_err`, with the number of the step.
unfoldable pub demand : ℕ → Bool → Result (Unit {0})
demand step true = ok tt
demand step false = err (Error.rejected step)

unfoldable pub needed {ℓ} : {A : Type ℓ} → ℕ → Option A → Result A
needed step none = err (Error.rejected step)
needed step (some a) = ok a

unfoldable pub at_step {ℓ} : {A : Type ℓ} → ℕ → Result A → Result A
at_step step (ok a) = ok a
at_step step (err e) = err (Error.rejected step)
