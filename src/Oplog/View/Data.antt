-- ===== src/Oplog/View/Data.antt =====
-- crates/tessra-core/src/object.rs: the types `View`, `LineState`, `PauseState` and `Effect`.
use tessra.Prelude.{ℕ, ℤ, List, Bytes, Option}
use tessra.Core.Id.{EntityId, ObjectId}
use tessra.Core.Value.{Value}

pub record LineState : Type 0 where
  pub id : EntityId
  pub head : Value
  pub seq : ℕ
  pub coordinator : EntityId

pub record PauseState : Type 0 where
  pub scope : Bytes
  pub by : EntityId
  pub op : ObjectId

pub record View : Type 0 where
  pub entities : ObjectId
  pub proposed : ObjectId
  pub claims : ObjectId
  pub caps : ObjectId
  pub revoked : ObjectId
  pub tombstoned : ObjectId
  pub lines : List (Bytes × LineState)
  pub roots : List Bytes
  pub owners : List EntityId
  pub deployed : List (EntityId × ObjectId)
  pub paused : Option (List PauseState)

pub data Effect : Type 0 where
  put : ObjectId → Effect
  point : EntityId → ObjectId → Option Value → Effect
  unpoint : EntityId → Effect
  -- The line, the new head, the old one, the sequence number, the attestations and the line's ID.
  head : Bytes → ObjectId → Option Value → ℕ → List ObjectId → Option EntityId → Effect
  propose unpropose : ObjectId → Effect
  claim : EntityId → ObjectId → Effect
  unclaim : EntityId → Effect
  cap uncap : ObjectId → Effect
  revoke : EntityId → Effect
  tomb : ObjectId → ObjectId → Effect
  deploy : EntityId → ObjectId → Effect
  pause resume : Bytes → Effect
  owner unowner : EntityId → Effect
  root unroot : Bytes → Effect
  coordinator : Bytes → EntityId → Effect

-- `time` counts nanoseconds from an epoch, of either sign.
pub record Op : Type 0 where
  pub parents : List ObjectId
  pub author : EntityId
  pub key : Bytes
  pub cap : Option ObjectId
  pub kind : Bytes
  pub args : List (Bytes × Value)
  pub effects : List Effect
  pub view : ObjectId
  pub time : ℤ
  pub desc : Option Bytes
  pub sig : Option Bytes
