-- ===== src/Core/Trie/Sample.antt =====
-- A concrete store of nodes, with an empty trie in it.
mod Encoding
use tessra.Prelude.{
  ℕ, suc, ◌≡◌, refl, ◌∙◌, arith, List, [], ◌∷◌, Bytes, codes, Option, none, some, if◌then◌else◌,
  All,
}
use tessra.Prelude.{eqb, lookup, list_ord, nat_ord}
use tessra.Core.Result.{Result, ok}
use tessra.Core.Id.{ObjectId, IsByte}
use tessra.Core.Hash.Domains.{IsInjective}
use tessra.Core.Store.Laws.{IsAddressed}
use tessra.Core.Trie.Node.{TrieValue, Slot, TrieNode, empty_node, Sub, get_slot, set_slot}
use tessra.Core.Trie.Ops.Store.{NodeStore}
use tessra.Core.Trie.Ops.{get, insert}
use tessra.Core.Trie.InMemory.{in_memory}
use tessra.Core.Trie.Proofs.Slots.{IsShaped, empty_node-IsShaped, get_slot-set_slot}
use tessra.Core.Trie.Proofs.Keys.{IsKey}
use tessra.Core.Trie.Proofs.Meaning.{IsTrie, AnyKey, Extends, IsRoot, value_at, get-value_at}
use tessra.Core.Trie.Proofs.Nodes.{save-IsTrie, empty_node-IsNode}
use tessra.Core.Trie.Proofs.Insert.{insert-value_at}
use Encoding.{codec, codec-IsTag, decode-encode}

-- The identity stands for a hash without collisions.
abbrev pub plain_hash : Bytes → Bytes
plain_hash b = b

pub plain_hash-IsInjective : IsInjective plain_hash
plain_hash-IsInjective a b e = e

abbrev pub nodes : NodeStore
nodes = in_memory plain_hash plain_hash-IsInjective codec codec-IsTag decode-encode

open nodes use {State, save}

none-some : {b : Bytes} → none ≡ some b → ⊥
none-some e = cc

pub nothing_stored : IsAddressed plain_hash []
unfolding lookup
nothing_stored id b e = absurd (none-some e)

abbrev pub no_entries : State
no_entries = ([], nothing_stored)

abbrev pub start : ObjectId × State
start = save no_entries empty_node

pub start-IsTrie : (len h : ℕ) → IsTrie nodes len start.1 (suc h) 0 AnyKey (Sub.node start.0)
start-IsTrie len h =
    save-IsTrie nodes len no_entries h 0 AnyKey empty_node
      (empty_node-IsNode nodes len no_entries h 0 AnyKey)
