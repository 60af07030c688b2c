-- ===== src/Oplog/Verify/Steps/Runs.antt =====
-- A concrete log, and the theorems at concrete inputs.
use tessra.Prelude.{
  true, false, [], ◌∷◌, List, Bytes, codes, replicate, none, some, list_ord, nat_ord,
}
use tessra.Core.Result.{Result, ok, err}
use tessra.Core.Id.{EntityId, ObjectId}
use tessra.Core.Value.{Value, Entries}
use tessra.Core.Cbor.{Ciborium, Object}
use tessra.Core.Sig.{Ed25519, SignedObject}
use tessra.Core.Trie.Sample.{start}
use tessra.Oplog.View.Data.{View, Op, Effect}
use tessra.Oplog.Dag.Store.{OpStore}
use tessra.Core.Trie.Ops
use tessra.Oplog.Dag.{Log}
use tessra.Oplog.Dag.Runs
use tessra.Oplog.Capability.Runs.{owner, entries, view, principal, granted}
use tessra.Oplog.Verify.Objects.{Objects, State, Revision}
use tessra.Oplog.Standard.Evaluate
use tessra.Oplog.Standard.Clauses.{Forms}
use tessra.Oplog.Standard.Data.{Attestation, Predicate, Standard, Unmet}
use tessra.Oplog.Verify.Steps.{Fuel, verify_op}

-- Every object has the same bytes, tag and ID, and reads as one value of its type.
abbrev pub tag : Bytes
tag = codes "x"

abbrev pub some_value : Value
some_value = Value.map (
    Entries.entry (Value.text (codes "t")) (Value.text tag)
      (Entries.entry (Value.text (codes "v")) (Value.integer 1) Entries.no_entry))

abbrev pub bytes_of : Value → Bytes
bytes_of (Value.text t) = t
bytes_of v = 7 ∷ []

abbrev pub cbor : Ciborium
cbor = record { read = λ b. ok some_value; write = λ v. ok (bytes_of v) }

abbrev pub reads_as : {T : Type 0} → T → Object T
reads_as x = record {
  tag = tag;
  version = 1;
  serialize = λ y. ok (Value.map Entries.no_entry);
  deserialize = λ v. ok x;
}

abbrev pub signed_as : {T : Type 0} → T → SignedObject T
signed_as x = record { object = reads_as x; sig = λ y. some (replicate 64 0); set_sig = λ s y. y }

abbrev pub ed : Ed25519
ed = record {
  public = λ k. k;
  sign_message = λ k m. replicate 64 0;
  is_key = λ k. true;
  is_weak = λ k. false;
  verify_strict = λ k m s. true;
}

abbrev pub same_id : ObjectId
same_id = replicate 32 1

abbrev pub log : OpStore
log = record Runs.db { load_view = λ s i. ok view }

abbrev pub revision : Revision
revision = record {
  id = owner;
  prev = none;
  snapshots = [];
  parents = [];
  intent = none;
  author = owner;
  flags = none;
}

abbrev pub attestation : Attestation
attestation = record {
  kind = codes "test";
  subject = some same_id;
  bodies = none;
  result = Value.boolean true;
  verifier = owner;
  runner = none;
  time = 0;
}

abbrev pub tested : Predicate
tested = record { kind = codes "attest"; name = some (codes "test"); args = none }

abbrev pub standard : Standard
standard = record {
  extends = none;
  clauses = record { op = codes "require"; pred = tested; unless = none } ∷ [];
  risk_clauses = none;
}

abbrev pub next : Op
next = record Runs.first {
  parents = (0 ∷ []) ∷ [];
  author = owner;
  key = replicate 32 5;
  kind = codes "status";
  view = same_id;
}

abbrev pub db : Objects
db = record {
  log = log;
  get_bytes = λ s i. ok (some (7 ∷ []));
  index_meta = λ s i. ok none;
  blake3 = λ b. same_id;
  cbor = cbor;
  ed = ed;
  view = reads_as view;
  revision = reads_as revision;
  snapshot = reads_as (record { root = same_id; index = none });
  tree = reads_as (record { entries = some []; shards = none });
  hook = reads_as (record { run_as = owner });
  memory = reads_as (record { scope_kind = codes "path" });
  claim = reads_as (record { id = owner; principal = owner });
  intent = reads_as (record { legacy = none });
  line = reads_as (record { standard = owner });
  attestation = reads_as attestation;
  standard = reads_as standard;
  node_index = reads_as (record { nodes = [] });
  capability = signed_as granted;
  principal = signed_as principal;
  op = signed_as next;
}

abbrev pub forms : Forms
forms = record { read_predicates = λ v. none; permille = λ f. 0 }

abbrev pub evaluate :
    State db → View → EntityId → ObjectId → Revision → List ObjectId → Result (List Unmet)
evaluate = Evaluate.evaluate db forms 5

abbrev pub fuel : Fuel
fuel = record { rounds = 10; height = 64; depth = 10 }

abbrev pub one_op : Log log
one_op = record {
  store = (entries.1, Runs.first ∷ []);
  heads = (0 ∷ []) ∷ [];
  verified = (0 ∷ []) ∷ [];
  views = (0 ∷ [], same_id) ∷ [];
  idem = [];
}

abbrev init : Op
init = record next {
  parents = [];
  kind = codes "init";
  effects = Effect.owner owner ∷ Effect.point owner same_id none ∷ [];
}

abbrev no_ops : Log log
no_ops = record { store = (start.1, []); heads = []; verified = []; views = []; idem = [] }

abbrev result_or : View × State db → Result (View × State db) → View × State db
result_or d (ok r) = r
result_or d (err e) = d

abbrev initial : View × State db
initial = result_or (view, no_ops.store) (verify_op db evaluate fuel [] no_ops init)
