-- ===== src/Oplog/Dag/Store.antt =====
-- What the operation log asks of the store behind it.
use tessra.Prelude.{◌≡◌}
use tessra.Core.Result.{Result, ok}
use tessra.Core.Id.{ObjectId}
use tessra.Core.Trie.Ops.Store.{NodeStore}
use tessra.Oplog.View.Data.{View, Op}

-- A stored operation is read back, and storing another object loses none.
pub record OpStore : Type 1 where
  pub nodes : NodeStore
  pub load_op : nodes.State → ObjectId → Result Op
  pub load_view : nodes.State → ObjectId → Result View
  pub put_op : nodes.State → Op → ObjectId × nodes.State
  pub put_view : nodes.State → View → nodes.State
  pub op_saved : (s : nodes.State) (o : Op) → load_op (put_op s o).1 (put_op s o).0 ≡ ok o
  pub op_kept :
      (s : nodes.State) (o p : Op) (i : ObjectId)
      → load_op s i ≡ ok p
      → load_op (put_op s o).1 i ≡ ok p
  pub op_kept_view :
      (s : nodes.State) (v : View) (p : Op) (i : ObjectId)
      → load_op s i ≡ ok p
      → load_op (put_view s v) i ≡ ok p
