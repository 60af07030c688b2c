-- ===== src/Oplog/Standard/Data.antt =====
-- crates/tessra-core/src/object.rs: standards, attestations and indexes of nodes, with the fields that an
-- evaluation reads. An `i64` is the number of values below it, so the least one is 0.
use tessra.Prelude.{ℕ, Bool, ◌&&◌, List, Bytes, Option, none, some}
use tessra.Core.Id.{EntityId, ObjectId}
use tessra.Core.Value.{Value}

pub record SecretMatch : Type 0 where
  pub path : Bytes
  pub pattern : Bytes

pub record Flags : Type 0 where
  pub out_of_scope : Option (List Bytes)
  pub secrets : Option (List SecretMatch)
  pub case_collisions : Option (List (List Bytes))
  pub unportable_names : Option (List Bytes)
  pub generated_drift : Option (List Bytes)

abbrev pub is_none {ℓ} : {A : Type ℓ} → Option A → Bool
is_none none = Bool.true
is_none (some a) = Bool.false

-- `Flags::is_empty`
unfoldable pub no_flags : Flags → Bool
no_flags f =
    is_none f.out_of_scope
    && is_none f.secrets
    && is_none f.case_collisions
    && is_none f.unportable_names
    && is_none f.generated_drift

pub record Node : Type 0 where
  pub nid : EntityId
  pub kind : Bytes
  pub name : Bytes
  pub body : ObjectId
  pub deps : Option (List EntityId)

pub record NodeIndex : Type 0 where
  pub nodes : List Node

pub record Attestation : Type 0 where
  pub kind : Bytes
  pub subject : Option Bytes
  pub bodies : Option (List ObjectId)
  pub result : Value
  pub verifier : EntityId
  pub runner : Option EntityId
  pub time : ℕ

pub record Predicate : Type 0 where
  pub kind : Bytes
  pub name : Option Bytes
  pub args : Option (List (Bytes × Value))

pub record Clause : Type 0 where
  pub op : Bytes
  pub pred : Predicate
  pub unless : Option Predicate

pub record RiskClauses : Type 0 where
  pub risk_at_least : Bytes
  pub clauses : List Clause

pub record Standard : Type 0 where
  pub extends : Option EntityId
  pub clauses : List Clause
  pub risk_clauses : Option (List RiskClauses)

-- A clause that did not hold, alone or from a level of risk up, or a level that has no attestation of
-- the risk. The label and the reason are texts and left out.
pub data Unmet : Type 0 where
  unmet : Clause → Unmet
  unmet_at : Bytes → Clause → Unmet
  unknown_risk : Bytes → Unmet
