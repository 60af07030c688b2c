-- ===== src/Core/Trie/Runs.antt =====
-- Concrete tries, and the theorems at concrete inputs.
use tessra.Prelude.{◌≡◌, refl, arith, [], ◌∷◌, Bytes, codes, some, if◌then◌else◌}
use tessra.Prelude.{eqb, list_ord, nat_ord}
use tessra.Core.Result.{ok}
use tessra.Core.Id.{ObjectId}
use tessra.Core.Trie.Node.{TrieValue}
use tessra.Core.Trie.Ops.{get, insert}
use tessra.Core.Trie.Proofs.Keys.{IsKey}
use tessra.Core.Trie.Proofs.Meaning.{Extends, IsRoot, value_at, get-value_at}
use tessra.Core.Trie.Proofs.Insert.{insert-value_at}
use tessra.Core.Trie.Sample.{nodes, start, start-IsTrie}
open nodes use {State}

start-IsRoot : IsRoot nodes 1 start.1 start.0
start-IsRoot = start-IsTrie 1 1

abbrev key : Bytes
key = 0x2a ∷ []

key-IsKey : IsKey 1 key
key-IsKey = (refl, omega arith)

abbrev one : TrieValue
one = TrieValue.id (codes "one")

insert-value_at_example :
    (root' : ObjectId) × (s' : State) × (insert nodes start.0 key one start.1 ≡ ok (root', s'))
    × Extends nodes 1 start.1 s'
    × IsRoot nodes 1 s' root'
    × (value_at nodes 1 s' root' key
        ≡ (if eqb key key then some one else value_at nodes 1 start.1 start.0 key))
insert-value_at_example =
    insert-value_at nodes 1 key one key-IsKey start.1 start.0 key start-IsRoot key-IsKey.1

get-value_at_example :
    get nodes start.0 key start.1 ≡ ok (value_at nodes 1 start.1 start.0 key, start.1)
get-value_at_example = get-value_at nodes 1 start.1 start.0 key start-IsRoot key-IsKey
