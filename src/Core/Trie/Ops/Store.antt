-- ===== src/Core/Trie/Ops/Store.antt =====
-- What the trie asks of the store behind it.
use tessra.Prelude.{◌≡◌}
use tessra.Core.Result.{Result, ok}
use tessra.Core.Id.{ObjectId}
use tessra.Core.Trie.Node.{TrieNode}

-- A saved node is found under an ID that its content fixes, and nothing is lost.
pub record NodeStore : Type 1 where
  pub State : Type 0
  pub load : State → ObjectId → Result TrieNode
  pub save : State → TrieNode → ObjectId × State
  pub id_of : TrieNode → ObjectId
  pub save_id : (s : State) (n : TrieNode) → (save s n).0 ≡ id_of n
  pub load_saved : (s : State) (n : TrieNode) → load (save s n).1 (save s n).0 ≡ ok n
  pub load_kept :
      (s : State) (n m : TrieNode) (i : ObjectId) → load s i ≡ ok m → load (save s n).1 i ≡ ok m
