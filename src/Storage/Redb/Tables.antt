-- ===== src/Storage/Redb/Tables.antt =====
-- What crates/tessra-store/src/lib.rs asks of redb: tables that are maps.
use tessra.Prelude.{◌≡◌, List, Bytes, Option, some, if◌then◌else◌, eqb, list_ord, nat_ord}

pub data Table : Type 0 where
  objects meta idem : Table

-- What was inserted is read back, and the other keys and tables are as before.
pub record Database : Type 1 where
  pub State : Type 0
  pub get : State → Table → Bytes → Option Bytes
  pub insert : State → Table → Bytes → Bytes → State
  pub keys : State → Table → List Bytes
  pub get_insert :
      (s : State) (t : Table) (k v j : Bytes)
      → get (insert s t k v) t j ≡ (if eqb k j then some v else get s t j)
  pub get_other :
      (s : State) (t u : Table) (k v j : Bytes) → (t ≡ u → ⊥) → get (insert s t k v) u j ≡ get s u j
