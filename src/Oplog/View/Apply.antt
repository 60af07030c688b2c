-- ===== src/Oplog/View/Apply.antt =====
-- `ViewState::apply`: the effects of an operation on a view.
pub mod Laws
pub mod Reads
use tessra.Prelude.{
  ℕ, Bool, List, [], ◌∷◌, ◌++◌, Bytes, Option, none, some, if◌then◌else◌, head?, replicate, not,
}
use tessra.Prelude.{eqb, contains, remove, filter, lookup, put, sort, list_ord, nat_ord}
use tessra.Core.Result.{Result, ok, err, Error}
use tessra.Core.State.{M, ret, lift, ◌>>=◌}
use tessra.Core.Id.{EntityId, ObjectId}
use tessra.Core.Trie.Node.{TrieValue}
use tessra.Core.Trie.Ops.Store.{NodeStore}
use tessra.Core.Trie.Ops
use tessra.Core.Trie.Ops.{insert}
use tessra.Oplog.View.Pointer.{Pointer, to_value}
use tessra.Oplog.View.Data.{View, LineState, PauseState, Effect}
use tessra.Oplog.View.Parts.{pauses, has_scope}

-- `unwrap_or`
unfoldable pub unwrap_or : Option Bytes → Bytes → Bytes
unwrap_or none d = d
unwrap_or (some i) d = i

-- `Effect::Head`, on the line's state.
unfoldable pub moved_line :
    List EntityId → Option LineState → ObjectId → ℕ → Option EntityId → Result LineState
unfolding to_value unwrap_or
moved_line owners (some ls) to seq id =
    ok (record ls { head = to_value (Pointer.id to); seq = seq })
moved_line owners none to seq none = err Error.other
moved_line owners none to seq (some lid) = ok (record {
  id = lid;
  head = to_value (Pointer.id to);
  seq = seq;
  coordinator = unwrap_or (head? owners) lid;
})

unfoldable pub with_line : View → Bytes → Result LineState → Result View
with_line v line (ok ls) = ok (record v { lines = put line ls v.lines })
with_line v line (err e) = err e

unfoldable pub apply_head : View → Bytes → ObjectId → ℕ → Option EntityId → Result View
unfolding moved_line with_line
apply_head v line to seq id = with_line v line (moved_line v.owners (lookup line v.lines) to seq id)

-- `Effect::Pause` and `Effect::Resume`, on the list of pauses.
unfoldable pub add_pause : Option (List PauseState) → PauseState → Option (List PauseState)
unfolding pauses has_scope
add_pause ps p = some (if has_scope p.scope (pauses ps) then pauses ps else pauses ps ++ p ∷ [])

unfoldable pub new_pause : List EntityId → Option ObjectId → Bytes → PauseState
unfolding unwrap_or
new_pause owners parent scope = record {
  scope = scope;
  by = unwrap_or (head? owners) (replicate 16 0);
  op = unwrap_or parent (replicate 32 0);
}

unfoldable pub some_pauses : List PauseState → Option (List PauseState)
some_pauses [] = none
some_pauses (p ∷ ps) = some (p ∷ ps)

unfoldable pub drop_pause : Option (List PauseState) → Bytes → Option (List PauseState)
unfolding some_pauses
drop_pause none scope = none
drop_pause (some ps) scope = some_pauses (filter (λ (p : PauseState). not (eqb p.scope scope)) ps)

-- `if !v.contains(x) { v.push(x); v.sort() }`
unfoldable pub add_sorted : Bytes → List Bytes → List Bytes
add_sorted x xs = if contains xs x then xs else sort (xs ++ x ∷ [])

unfoldable pub set_coordinator : Option LineState → Bytes → EntityId → View → View
set_coordinator none line to v = v
set_coordinator (some ls) line to v = record v {
  lines = put line (record ls { coordinator = to }) v.lines;
}

module _ (store : NodeStore) where
  open store use {State}

  -- The arm of `apply` for one effect.
  unfoldable pub apply_effect : Option ObjectId → View → Effect → M State View
  unfolding apply_head new_pause add_pause drop_pause add_sorted set_coordinator
  apply_effect parent v (Effect.put i) = ret v
  apply_effect parent v (Effect.point e to from) = do
    r ← insert store v.entities e (TrieValue.id to)
    ret (record v { entities = r })
  apply_effect parent v (Effect.unpoint e) = do
    r ← Ops.remove store v.entities e
    ret (record v { entities = r })
  apply_effect parent v (Effect.head line to from seq attests id) =
      lift (apply_head v line to seq id)
  apply_effect parent v (Effect.propose rev) = do
    r ← insert store v.proposed rev TrieValue.set
    ret (record v { proposed = r })
  apply_effect parent v (Effect.unpropose rev) = do
    r ← Ops.remove store v.proposed rev
    ret (record v { proposed = r })
  apply_effect parent v (Effect.claim c to) = do
    r ← insert store v.claims c (TrieValue.id to)
    ret (record v { claims = r })
  apply_effect parent v (Effect.unclaim c) = do
    r ← Ops.remove store v.claims c
    ret (record v { claims = r })
  apply_effect parent v (Effect.cap c) = do
    r ← insert store v.caps c TrieValue.set
    ret (record v { caps = r })
  apply_effect parent v (Effect.uncap c) = do
    r ← Ops.remove store v.caps c
    ret (record v { caps = r })
  apply_effect parent v (Effect.revoke p) = do
    r ← insert store v.revoked p TrieValue.set
    ret (record v { revoked = r })
  apply_effect parent v (Effect.tomb of tombstone) = do
    r ← insert store v.tombstoned of TrieValue.set
    ret (record v { tombstoned = r })
  apply_effect parent v (Effect.deploy target to) =
      ret (record v { deployed = put target to v.deployed })
  apply_effect parent v (Effect.pause scope) =
      ret (record v { paused = add_pause v.paused (new_pause v.owners parent scope) })
  apply_effect parent v (Effect.resume scope) =
      ret (record v { paused = drop_pause v.paused scope })
  apply_effect parent v (Effect.owner p) = ret (record v { owners = add_sorted p v.owners })
  apply_effect parent v (Effect.unowner p) = ret (record v { owners = remove p v.owners })
  apply_effect parent v (Effect.root name) = ret (record v { roots = add_sorted name v.roots })
  apply_effect parent v (Effect.unroot name) = ret (record v { roots = remove name v.roots })
  apply_effect parent v (Effect.coordinator line to) =
      ret (set_coordinator (lookup line v.lines) line to v)

  unfoldable pub apply : View → List Effect → Option ObjectId → M State View
  unfolding apply_effect
  apply v [] parent = ret v
  apply v (e ∷ es) parent = do v' ← apply_effect parent v e; apply v' es parent
