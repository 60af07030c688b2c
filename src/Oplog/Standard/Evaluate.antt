-- ===== src/Oplog/Standard/Evaluate.antt =====
-- crates/tessra-oplog/src/standard.rs: `chain`, `index_of` and `evaluate`.
pub mod Met
use tessra.Prelude.{
  ℕ, zero, suc, Bool, true, false, List, [], ◌∷◌, ◌++◌, map, Bytes, codes, Option, none, some,
  if◌then◌else◌, replicate, leb, head?, eqb, lookup, list_ord, nat_ord,
}
use tessra.Core.Result.{Result, ok, err, ◌>>=◌, Error}
use tessra.Core.Id.{EntityId, ObjectId, object_from_slice}
use tessra.Oplog.View.Pointer.{Pointer, single}
use tessra.Oplog.View.Data.{View}
use tessra.Oplog.View.Merge.{entity}
use tessra.Oplog.Capability.{Principal, reading}
use tessra.Oplog.Verify.Objects.{Objects, State, Revision, Snapshot, get_object}
use tessra.Oplog.Standard.Data.{NodeIndex, Attestation, Clause, RiskClauses, Standard, Unmet}
use tessra.Oplog.Standard.Context.{Ctx, Loaded, or_empty, risk, level_rank}
use tessra.Oplog.Standard.Clauses.{Forms, check_clause}

abbrev pub deepest_chain : ℕ
deepest_chain = 32

abbrev pub signer_of : Attestation → Option EntityId → EntityId
signer_of a none = a.verifier
signer_of a (some runner) = runner

-- `.ok()`
unfoldable pub if_read {ℓ} : {A : Type ℓ} → Result A → Option A
if_read (ok a) = some a
if_read (err e) = none

abbrev pub kind_of : Option Principal → Option Bytes
kind_of none = none
kind_of (some p) = some p.kind

unfoldable pub parent_of : Option Principal → Option EntityId
parent_of none = none
parent_of (some p) = p.parent

abbrev pub model_of : Option Principal → Option Bytes
model_of none = none
model_of (some p) = p.model

-- The revision before, where it is the second parent.
abbrev pub derived_from : Option ObjectId → List ObjectId → List Bytes
derived_from (some p) (a ∷ b ∷ rest) = if eqb b p then p ∷ [] else []
derived_from _ _ = []

unfoldable pub subjects_of : ObjectId → Revision → List Bytes
subjects_of id rev =
    id ∷ (derived_from rev.prev rev.parents ++ map (λ (s : Bytes × ObjectId). s.1) rev.snapshots)

abbrev pub push_unmet : Option Unmet → List Unmet → List Unmet
push_unmet none us = us
push_unmet (some u) us = u ∷ us

abbrev pub at_level : Bytes → Option Unmet → Option Unmet
at_level level (some (Unmet.unmet c)) = some (Unmet.unmet_at level c)
at_level level u = u

module _ (forms : Forms) (depth : ℕ) (ctx : Ctx) where
  unfoldable pub check_clauses : List Clause → Result (List Unmet)
  unfolding check_clause
  check_clauses [] = ok []
  check_clauses (c ∷ cs) =
      check_clause forms ctx depth c >>= λ u. check_clauses cs >>= λ us. ok (push_unmet u us)

  -- The clauses that apply from a level of risk.
  unfoldable pub check_at_level : Bytes → List Clause → Result (List Unmet)
  unfolding check_clause
  check_at_level level [] = ok []
  check_at_level level (c ∷ cs) = check_clause forms ctx depth c >>= λ u.
      check_at_level level cs >>= λ us. ok (push_unmet (at_level level u) us)

  unfoldable pub check_risk : Option Bytes → RiskClauses → Result (List Unmet)
  unfolding check_at_level level_rank
  check_risk none w = ok (Unmet.unknown_risk w.risk_at_least ∷ [])
  check_risk (some level) w =
      let found = check_at_level w.risk_at_least w.clauses in
      if leb (level_rank w.risk_at_least) (level_rank level) then found else ok []

  unfoldable pub check_risks : List RiskClauses → Result (List Unmet)
  unfolding check_risk risk
  check_risks [] = ok []
  check_risks (w ∷ ws) =
      check_risk (risk ctx) w >>= λ us. check_risks ws >>= λ more. ok (us ++ more)

  unfoldable pub check_standard : Standard → Result (List Unmet)
  unfolding check_clauses check_risks
  check_standard st = check_clauses st.clauses >>= λ us.
      check_risks (or_empty st.risk_clauses) >>= λ more. ok (us ++ more)

  unfoldable pub check_chain_of : List Standard → Result (List Unmet)
  unfolding check_standard
  check_chain_of [] = ok []
  check_chain_of (st ∷ sts) =
      check_standard st >>= λ us. check_chain_of sts >>= λ more. ok (us ++ more)

module _ (db : Objects) where
  open db use {log}

  abbrev pub standard_at : Option Pointer → State db → Result Standard
  standard_at none s = err Error.other
  standard_at (some p) s = single p >>= λ i. get_object db db.standard s i

  -- The loop of `chain`; what it reversed at the end is put in front.
  unfoldable pub chain_loop :
      ℕ → State db → View → Option EntityId → List Standard → Result (List Standard)
  unfolding single get_object
  chain_loop guard s v none chain = ok chain
  chain_loop zero s v (some id) chain = err Error.other
  chain_loop (suc guard) s v (some id) chain = reading (entity log.nodes v id) s >>= λ p.
      standard_at p s >>= λ st. chain_loop guard s v st.extends (st ∷ chain)

  unfoldable pub chain : State db → View → EntityId → Result (List Standard)
  unfolding chain_loop
  chain s v id = chain_loop deepest_chain s v (some id) []

  abbrev pub cached_index : State db → Option Bytes → Option NodeIndex
  cached_index s none = none
  cached_index s (some b) = if_read (object_from_slice b >>= λ i. get_object db db.node_index s i)

  abbrev pub index_or : State db → Option NodeIndex → Option ObjectId → Result (Option NodeIndex)
  index_or s (some idx) i = ok (some idx)
  index_or s none none = ok none
  index_or s none (some i) = get_object db db.node_index s i >>= λ idx. ok (some idx)

  unfoldable pub index_of : State db → ObjectId → Result (Option NodeIndex)
  unfolding object_from_slice get_object
  index_of s snap_id = get_object db db.snapshot s snap_id >>= λ snap.
      db.index_meta s snap_id >>= λ b. index_or s (cached_index s b) snap.index

  abbrev pub index_at : State db → Option ObjectId → Result (Option NodeIndex)
  index_at s none = ok none
  index_at s (some i) = index_of s i

  -- The index of the root without a name.
  unfoldable pub root_index : State db → Revision → Result (Option NodeIndex)
  unfolding index_of
  root_index s rev = index_at s (lookup [] rev.snapshots)

  -- A revision without a parent is compared with an empty index.
  unfoldable pub parent_index : State db → Option ObjectId → Result (Option NodeIndex)
  unfolding root_index
  parent_index s none = ok (some (record { nodes = [] }))
  parent_index s (some p) = get_object db db.revision s p >>= λ rev. root_index s rev

  abbrev pub principal_read : State db → Option Pointer → Result (Option Principal)
  principal_read s none = ok none
  principal_read s (some p) = single p >>= λ i. ok (if_read (get_object db db.principal.object s i))

  unfoldable pub principal_of : State db → View → EntityId → Result (Option Principal)
  unfolding single get_object
  principal_of s v id = reading (entity log.nodes v id) s >>= λ p. principal_read s p

  abbrev pub loaded : Attestation → Option Principal → Loaded
  loaded a p = record {
    att = a;
    signer_kind = kind_of p;
    signer_parent = parent_of p;
    signer_model = model_of p;
  }

  unfoldable pub load_attests : State db → View → List ObjectId → Result (List Loaded)
  unfolding principal_of
  load_attests s v [] = ok []
  load_attests s v (i ∷ is) = get_object db db.attestation s i >>= λ a.
      principal_of s v (signer_of a a.runner) >>= λ p.
      load_attests s v is >>= λ ls. ok (loaded a p ∷ ls)

  unfoldable pub context : State db → View → ObjectId → Revision → List ObjectId → Result Ctx
  unfolding load_attests root_index parent_index subjects_of
  context s v id rev attests = load_attests s v attests >>= λ ls.
      principal_of s v rev.author >>= λ author. root_index s rev >>= λ idx.
      parent_index s (head? rev.parents) >>= λ pidx. ok (record {
        revision = rev;
        attests = ls;
        subjects = subjects_of id rev;
        index = idx;
        parent_index = pidx;
        author_parent = parent_of author;
      })

  -- `depth` bounds the nesting of predicates.
  unfoldable pub evaluate :
      Forms
      → ℕ
      → State db
      → View
      → EntityId
      → ObjectId
      → Revision
      → List ObjectId
      → Result (List Unmet)
  unfolding chain context check_chain_of
  evaluate forms depth s v standard id rev attests = chain s v standard >>= λ sts.
      context s v id rev attests >>= λ ctx. check_chain_of forms depth ctx sts
