-- ===== src/Lib.antt =====
-- Tessra: a versioned object store with an operation log, a view of the repository at each operation,
-- the rules by which views are merged, and the daemon's account of anomalies.
--
-- The parts, and how they interact
--   Objects are bytes under the hash of their type and content (crates/tessra-core). The trie keeps a
--   map from IDs to values as nodes in that store. A view (crates/tessra-oplog) is a record of tries,
--   lines, owners, roots, deployments and pauses; an operation's effects change it, and concurrent
--   operations are reconciled by a three-way merge of views. Patterns of paths say what a capability
--   covers. The operation log (crates/tessra-oplog) accepts operations that verify and keeps the heads.
--   The daemon (crates/tessra-daemon) adds points against agents and throttles or revokes them.
--
-- Files
--   Prelude    shared names; Boolean tests, lists, ordered types, sets and maps as Rust's collections.
--   Core       crates/tessra-core/src:
--     Cbor            cbor.rs: canonicalize, encode, decode, peek_tag; ciborium and serde are parameters.
--     Sig             sig.rs: signing_message, sign_with, verify_with; Ed25519 is a parameter.
--     Result, State   lib.rs: errors, `?`, and code that writes to the store (state passing).
--     Value           the CBOR values of views, the type of the ciborium library.
--     Id              id.rs, hash.rs: EntityId, ObjectId, to_letters, from_letters.
--     Hash            hash.rs: object_id, blob_id, DomainHasher; BLAKE3 is a parameter.
--     Store           store.rs: MemoryStore, put_bytes, put, get; the codec of a type is a parameter.
--     Trie            trie.rs: Node (TrieNode, Slot, TrieValue), Ops (get, insert, remove, entries),
--                     Merge (merge3), Proofs, InMemory (the store of nodes that MemoryStore gives).
--   Storage    crates/tessra-store/src:
--     Redb            lib.rs: RedbStore, put_bytes, get_bytes, begin_batch, end_batch, heads, idem_get.
--                     The tables of the database are a parameter, Redb/Tables, as is from_utf8_lossy.
--     Pack            pack.rs: write_varint, read_varint, write, read, import. A pack is imported into the
--                     in-memory store.
--   Oplog      crates/tessra-oplog/src:
--     Glob            glob.rs: matches, match_segments, match_chars, contained, any_match.
--     View            view.rs and the types of tessra-core/src/object.rs: Pointer, Parts (the rules of
--                     a merge), Merge (ViewState::merge), Apply (ViewState::apply).
--     Dag             dag.rs: OpLog, accept, open, ancestors, lca, merged_view. What it asks of the store
--                     is Dag/Store, and verify_op is a parameter.
--     Walk            the worklist loop of dag.rs (ancestors) and verify.rs (landed_revisions).
--     Capability      verify.rs: check_chain, contained_in, resolve_principal. The check of a signature
--                     and the loading of objects are what CapabilityStore holds.
--     Verify          verify.rs: Objects (the store and the types of objects it reads), Trees (load_entries,
--                     changed_paths), Scope (check_authorizes, check_write_scope), Landed (landed_revisions,
--                     legacy_intent), Legality (check_legality, by effect), Steps (verify_op, verify_init).
--                     The evaluation of a standard is an argument, which Standard models.
--     Standard        standard.rs: Data (its objects), Numbers (an `i64` as the number of values below it),
--                     Context (Ctx), Checks and Judges (the predicates), Clauses (holds, check_clause),
--                     Evaluate (chain, index_of, evaluate). How serde reads nested predicates is an argument.
--   Daemon     crates/tessra-daemon/src:
--     Anomaly         anomaly.rs: record, record_once, check. Sessions, the configuration, the revocation
--                     of an agent and the hooks are parameters.
--   Each module Runs holds tests and the theorems at concrete inputs.
--
-- Representation
--   Bytes are lists of numbers, IDs are their bytes, and a text is the list of its characters. A
--   BTreeMap or HashMap is an association list that is read by key; a BTreeSet is an ascending list.
--   The bitmap of a trie node, only ever used as a set of bits, is the list of its sixteen bits. A
--   store is passed along; the trie asks of it what Core/Trie/Ops/Store says, and Core/Trie/InMemory
--   proves that the in-memory store provides it. Error messages are left out.
--
-- Fuel
--   `get`, `insert`, `remove` and `pair_node` of the trie descend one nibble a round and panic past
--   the last one, so twice the length of the key and one more is enough; the theorems on `get` and
--   `insert` show that it is. `walk` and `merge3` take a bound on the height of the tries, which is
--   twice the length of their keys. `open` and `ancestors` of the log take a number of rounds: each one
--   takes an ID from the queue, and an operation is expanded once, so one round more than the
--   operations have parents is enough; the theorem on `ancestors` shows it. `changed_paths` takes a
--   bound on the depth of the trees, and the evaluation of a standard one on how deep its predicates are nested,
--   which is enough by the theorem on clauses. The reader of packs takes
--   one round for each record, and a record has at least the 32 bytes of its ID. Running out is the
--   error `stuck`, which the code does not have. `write_varint` has ten rounds, which write every u64.
--
-- Not modelled
--   BLAKE3, Ed25519, the CBOR writer and reader, the serde impls and a failure of the database are
--   arguments of what uses them, or left out where they only pass an error on. The texts of labels and
--   reasons, the parser of predicates, the parser of source code, and the input and output of the daemon
--   and of the command line are not modelled.
pub mod Prelude
pub mod Core
pub mod Storage
pub mod Oplog
pub mod Daemon
