-- ===== src/Oplog/Capability/Runs.antt =====
-- A concrete owner and a delegated capability, and the theorems at concrete inputs.
use tessra.Prelude.{
  ℕ, pos, ◌≤◌, ◌≡◌, ◌↔◌, refl, true, [], ◌∷◌, codes, replicate, none, some, all, eqb, contains,
  list_ord, nat_ord,
}
use tessra.Core.Result.{ok}
use tessra.Core.Id.{EntityId, ObjectId}
use tessra.Core.Trie.Node.{TrieValue, Slot, TrieNode, empty_node, set_slot}
use tessra.Core.Trie.Sample.{nodes, start}
use tessra.Oplog.View.Data.{View}
use tessra.Oplog.Capability.{
  Capability, CapabilityStore, Principal, WriteScope, hard_ok, contained_in, check_chain,
}
use tessra.Oplog.Capability.Chains.{Chain, check_chain_iff}
open nodes use {State, save}

abbrev pub owner : EntityId
owner = replicate 16 0x10

abbrev pub owner_version : ObjectId
owner_version = replicate 32 1

-- The trie with the owner as its only entry.
abbrev pub owners_node : TrieNode
owners_node = set_slot empty_node 1 (some (Slot.leaf owner (TrieValue.id owner_version)))

abbrev pub entries : ObjectId × State
entries = save start.1 owners_node

abbrev pub principal : Principal
principal = record {
  id = owner;
  prev = none;
  key = some (replicate 32 5);
  kind = codes "human";
  parent = none;
  model = none;
  status = codes "active";
}

abbrev pub everything : WriteScope
everything = record {
  paths = none;
  roots = none;
  stages = none;
  memory_scopes = none;
  nodes = none;
  lines = none;
  targets = none;
}

abbrev pub granted : Capability
granted = record {
  issuer = owner;
  subject = replicate 16 2;
  verbs = codes "land" ∷ [];
  write = everything;
  read = record { roots = none; paths = none; memory = none };
  hard = none;
  advisory = none;
  delegable = true;
  parent = none;
  nonce = replicate 16 3;
  time = pos 0;
  sig = none;
}

abbrev db : CapabilityStore
db = record {
  nodes = nodes;
  load_principal = λ s i. ok principal;
  load_capability = λ s i. ok granted;
  verify_with = λ c key. true;
}

abbrev pub view : View
view = record {
  entities = entries.0;
  proposed = start.0;
  claims = start.0;
  caps = start.0;
  revoked = start.0;
  tombstoned = start.0;
  lines = [];
  roots = [];
  owners = owner ∷ [];
  deployed = [];
  paused = none;
}

check_chain_iff_example :
    (check_chain db entries.1 view granted ≡ ok tt)
    ↔ ((n : ℕ) × (n ≤ 64) × Chain db entries.1 view granted n)
check_chain_iff_example = check_chain_iff db entries.1 view granted

-- A child that sets no limit is contained in a parent that sets one.
dropped_limit : hard_ok (some []) (some ((codes "ops", 10) ∷ [])) ≡ true
unfolding hard_ok all
dropped_limit = refl

-- A child that reads every root and memory is contained in a parent that reads one of each.
wider_read :
    contained_in granted (record granted {
      read = record { roots = some (codes "docs" ∷ []); paths = none; memory = some (codes "own") };
    })
    ≡ true
unfolding contained_in all contains eqb
wider_read = refl
