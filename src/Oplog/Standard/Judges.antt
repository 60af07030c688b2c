-- ===== src/Oplog/Standard/Judges.antt =====
-- crates/tessra-oplog/src/standard.rs: the predicates `judge` and `observe` of `holds`.
pub mod Votes
pub mod Panel
use tessra.Prelude.{
  ℕ, ◌+◌, ◌-◌, ◌^◌, max, min, Bool, true, false, ◌&&◌, ◌||◌, not, List, [], ◌∷◌, ◌++◌, map, Bytes,
  codes, Option, none, some, if◌then◌else◌, ltb, leb, any, filter, eqb, contains, length, list_ord,
  nat_ord,
}
use tessra.Core.Id.{EntityId}
use tessra.Core.Value.{Value, Entries}
use tessra.Oplog.Standard.Data.{Attestation, Predicate}
use tessra.Oplog.Standard.Numbers.{zero_i64, i64_of_integer, i64_of_negative, number_of}
use tessra.Oplog.Standard.Context.{Ctx, Loaded, truthy, trusted, on_revision}
use tessra.Oplog.Standard.Checks.{arg, name_or_empty, is_set}

-- `==` and `is_some` on the parents of signers.
unfoldable pub same_parent : Option EntityId → Option EntityId → Bool
same_parent (some a) (some b) = eqb a b
same_parent _ _ = false

abbrev pub same_model : Option Bytes → Option Bytes → Bool
same_model none none = true
same_model (some a) (some b) = eqb a b
same_model _ _ = false

-- The models without repetition; the code sorts them first, which the number does not depend on.
unfoldable pub distinct_models : List (Option Bytes) → List (Option Bytes)
unfolding any
distinct_models [] = []
distinct_models (m ∷ ms) =
    let rest = distinct_models ms in if any (same_model m) rest then rest else m ∷ rest

abbrev pub or_number : ℕ → Option ℕ → ℕ
or_number d none = d
or_number d (some n) = n

abbrev pub or_verifier : Attestation → Option EntityId → EntityId
or_verifier a none = a.verifier
or_verifier a (some parent) = parent

-- The agent of a judge.
unfoldable pub judge_key : Loaded → EntityId
judge_key l = or_verifier l.att l.signer_parent

-- A judge that agreed, with its model, and whether some judge disagreed.
pub record Tally : Type 0 where
  pub agreed : List (EntityId × Option Bytes)
  pub disagreed : Bool

abbrev pub has_judge : EntityId → List (EntityId × Option Bytes) → Bool
has_judge key agreed = any (λ (k : EntityId × Option Bytes). eqb k.0 key) agreed

unfoldable pub add_judge : Loaded → List (EntityId × Option Bytes) → List (EntityId × Option Bytes)
unfolding any judge_key
add_judge l agreed =
    if has_judge (judge_key l) agreed
    then agreed
    else agreed ++ ((judge_key l, l.signer_model) ∷ [])

unfoldable pub is_judge : Ctx → Bytes → Loaded → Bool
unfolding on_revision
is_judge ctx kind l = eqb l.att.kind kind && on_revision ctx l

abbrev pub enough : ℕ → Bool → List (EntityId × Option Bytes) → Bool
enough needed distinct agreed =
    leb needed (length agreed)
    && (not distinct
        || leb (min needed (length agreed))
            (length (distinct_models (map (λ (k : EntityId × Option Bytes). k.1) agreed))))

abbrev pub bound_on : (ℕ → ℕ → Bool) → ℕ → Option ℕ → Bool
bound_on exceeds value none = false
bound_on exceeds value (some m) = exceeds value m

abbrev pub is_latest : Attestation → Option Attestation → Bool
is_latest a none = true
is_latest a (some b) = leb b.time a.time

-- `max_by_key`, which returns the last of the latest.
unfoldable pub latest_observed : Ctx → Bytes → Option Attestation → List Loaded → Option Attestation
unfolding on_revision trusted
latest_observed ctx kind best [] = best
latest_observed ctx kind best (l ∷ ls) =
    let counted = eqb l.att.kind kind && on_revision ctx l && trusted l false in
    latest_observed ctx kind (if counted && is_latest l.att best then some l.att else best) ls

abbrev pub judges : Ctx → Bytes → List Loaded
judges ctx rubric = filter (is_judge ctx (codes "judge." ++ rubric)) ctx.attests

abbrev pub needed_judges : Predicate → ℕ
needed_judges p =
    max (or_number (zero_i64 + 1) (number_of (arg p (codes "judges")))) (zero_i64 + 1) - zero_i64

-- `permille` is `(f * 1000.0) as i64` on the bits of a float.
module _ (permille : ℕ → ℕ) where
  abbrev pub confidence_at : Bytes → Value → ℕ → ℕ
  confidence_at t (Value.integer n) c = if eqb t (codes "confidence") then i64_of_integer n else c
  confidence_at t (Value.negative n) c = if eqb t (codes "confidence") then i64_of_negative n else c
  confidence_at t (Value.float f) c = if eqb t (codes "confidence") then permille f else c
  confidence_at t v c = c

  -- The last confidence of the entries.
  unfoldable pub confidence_in : ℕ → Entries → ℕ
  confidence_in c Entries.no_entry = c
  confidence_in c (Entries.entry (Value.text t) v es) = confidence_in (confidence_at t v c) es
  confidence_in c (Entries.entry k v es) = confidence_in c es

  -- `judge_result`, without the reasoning.
  unfoldable pub judge_result : Value → ℕ
  unfolding confidence_in
  judge_result (Value.map es) = confidence_in (zero_i64 + 1000) es
  judge_result _ = zero_i64 + 1000

  -- One round of the loop over the judges.
  unfoldable pub count_verdict : Ctx → ℕ → Tally → Loaded → Tally
  unfolding same_parent judge_result add_judge truthy
  count_verdict ctx min_conf t l =
      if same_parent l.signer_parent ctx.author_parent || ltb (judge_result l.att.result) min_conf
      then t
      else if truthy l.att.result
      then record t { agreed = add_judge l t.agreed }
      else record t { disagreed = true }

  unfoldable pub tally : Ctx → ℕ → Tally → List Loaded → Tally
  unfolding count_verdict
  tally ctx min_conf t [] = t
  tally ctx min_conf t (l ∷ ls) = tally ctx min_conf (count_verdict ctx min_conf t l) ls

  abbrev pub tally_of : Ctx → Predicate → Tally
  tally_of ctx p =
      tally ctx (or_number zero_i64 (number_of (arg p (codes "min_confidence"))))
        (record { agreed = []; disagreed = false }) (judges ctx (name_or_empty p))

  unfoldable pub holds_judge : Ctx → Predicate → Bool
  unfolding tally distinct_models is_judge filter number_of is_set arg
  holds_judge ctx p =
      let t = tally_of ctx p in
      not t.disagreed
      && enough (needed_judges p) (is_set (arg p (codes "distinct_models"))) t.agreed

  -- What was observed; what is no number is 0.
  unfoldable pub observed_value : Value → ℕ
  observed_value (Value.integer n) = i64_of_integer n
  observed_value (Value.negative n) = i64_of_negative n
  observed_value (Value.float f) = permille f
  observed_value _ = zero_i64

  unfoldable pub within : Predicate → Option Attestation → Bool
  unfolding observed_value number_of arg
  within p none = false
  within p (some a) =
      let value = observed_value a.result in
      not (bound_on (λ v m. ltb m v) value (number_of (arg p (codes "max"))))
      && not (bound_on (λ v m. ltb v m) value (number_of (arg p (codes "min"))))

  unfoldable pub holds_observe : Ctx → Predicate → Bool
  unfolding latest_observed within
  holds_observe ctx p =
      within p (latest_observed ctx (codes "observe." ++ name_or_empty p) none ctx.attests)
