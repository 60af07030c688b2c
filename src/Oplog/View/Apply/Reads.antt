-- ===== src/Oplog/View/Apply/Reads.antt =====
-- What is read of an entity after an effect has pointed it elsewhere.
use tessra.Prelude.{ℕ, ◌≡◌, refl, ap, ◌∙◌, Bool, true, false, Option, some, if◌then◌else◌}
use tessra.Prelude.{eqb, list_ord, nat_ord}
use tessra.Core.Result.{ok}
use tessra.Core.State.{ret, >>=-ok}
use tessra.Core.Id.{EntityId, ObjectId}
use tessra.Core.Value.{Value}
use tessra.Core.Trie.Node.{TrieValue}
use tessra.Core.Trie.Ops.Store.{NodeStore}
use tessra.Core.Trie.Ops.{get, insert}
use tessra.Core.Trie.Proofs.Keys.{IsKey}
use tessra.Core.Trie.Proofs.Meaning.{IsRoot, value_at, get-value_at}
use tessra.Core.Trie.Proofs.Insert.{insert-value_at}
use tessra.Oplog.View.Pointer.{Pointer, from_trie}
use tessra.Oplog.View.Data.{View, Effect}
use tessra.Oplog.View.Merge.{pointer_at, entity}
use tessra.Oplog.View.Apply.{apply_effect}

-- The bytes of an entity ID.
abbrev id_bytes : ℕ
id_bytes = 16

pointer_at-if :
    (b : Bool) (to : ObjectId) (o : Option TrieValue)
    → pointer_at (if b then some (TrieValue.id to) else o)
      ≡ (if b then some (Pointer.id to) else pointer_at o)
unfolding pointer_at from_trie
pointer_at-if true to o = refl
pointer_at-if false to o = refl

module _ (store : NodeStore) where
  open store use {State}

  entity-value_at :
      (s : State) (v : View) (j : EntityId)
      → IsRoot store id_bytes s v.entities
      → IsKey id_bytes j
      → entity store v j s ≡ ok (pointer_at (value_at store id_bytes s v.entities j), s)
  unfolding entity
  entity-value_at s v j w k =
      >>=-ok (get store v.entities j) (λ r. ret (pointer_at r))
        (get-value_at store id_bytes s v.entities j w k)

  -- Pointing an entity succeeds where the view's trie of entities is well formed; afterwards `entity`
  -- returns the new pointer for it and for every other entity what it returned before.
  pub apply_effect-entity :
      (s : State) (v : View) (parent : Option ObjectId) (e j : EntityId) (to : ObjectId)
      (from : Option Value)
      → IsRoot store id_bytes s v.entities
      → IsKey id_bytes e
      → IsKey id_bytes j
      → (v' : View) × (s' : State) × (apply_effect store parent v (Effect.point e to from) s
          ≡ ok (v', s'))
        × IsRoot store id_bytes s' v'.entities
        × (entity store v j s ≡ ok (pointer_at (value_at store id_bytes s v.entities j), s))
        × (entity store v' j s'
            ≡ ok (
              (if eqb e j
                  then some (Pointer.id to)
                  else pointer_at (value_at store id_bytes s v.entities j)),
              s',
            ))
  unfolding apply_effect
  apply_effect-entity s v parent e j to from w ke kj =
      let (root, s', r, x, w', val) =
        insert-value_at store id_bytes e (TrieValue.id to) ke s v.entities j w kj.1 in
      (
        record v { entities = root },
        s',
        >>=-ok (insert store v.entities e (TrieValue.id to)) (λ i. ret (record v { entities = i }))
            r,
        w',
        entity-value_at s v j w kj,
        entity-value_at s' (record v { entities = root }) j w' kj
            ∙ ap (λ o. ok (o, s'))
                (ap pointer_at val
                  ∙ pointer_at-if (eqb e j) to (value_at store id_bytes s v.entities j)),
      )
