-- ===== src/Oplog/Verify/Steps/Accepted.antt =====
-- What holds of an operation that `verify_op` accepts.
use tessra.Prelude.{List, [], ◌∷◌, ◌⊎◌, list_ord, nat_ord}
use tessra.Core.Result.{Result}
use tessra.Core.Id.{EntityId, ObjectId}
use tessra.Oplog.View.Data.{View, Effect}
use tessra.Oplog.Standard.Data.{Unmet}
use tessra.Oplog.Verify.Objects.{Objects, State, Revision}
use tessra.Oplog.Verify.Landed.{Cache}
use tessra.Oplog.Verify.Steps.{Fuel}

module _ (db : Objects)
    (evaluate : State db
      → View
      → EntityId
      → ObjectId
      → Revision
      → List ObjectId
      → Result (List Unmet))
    (fuel : Fuel) (cache : Cache) where
  -- Some effect of a list.
  abbrev pub Some : (Effect → Type 0) → List Effect → Type 0
  Some P [] = ⊥
  Some P (e ∷ es) = P e ⊎ Some P es
