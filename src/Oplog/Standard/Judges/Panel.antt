-- ===== src/Oplog/Standard/Judges/Panel.antt =====
-- Which judges a `judge` predicate that holds had.
use tessra.Prelude.{ℕ, ◌≡◌, true, ◌++◌, Bytes, codes, list_ord, nat_ord}
use tessra.Oplog.Standard.Data.{Predicate}
use tessra.Oplog.Standard.Numbers.{zero_i64, number_of}
use tessra.Oplog.Standard.Context.{Ctx, Loaded, on_revision}
use tessra.Oplog.Standard.Checks.{arg, name_or_empty}
use tessra.Oplog.Standard.Judges.{or_number}
use tessra.Oplog.Standard.Judges.Votes.{IsCounted}

module _ (permille : ℕ → ℕ) (ctx : Ctx) (p : Predicate) where
  abbrev pub asked_confidence : ℕ
  asked_confidence = or_number zero_i64 (number_of (arg p (codes "min_confidence")))

  abbrev verdict_kind : Bytes
  verdict_kind = codes "judge." ++ name_or_empty p

  -- A verdict that counts: in the rubric, on the revision, not of the author's agent, and sure enough.
  abbrev pub IsVerdict : Loaded → Type 0
  IsVerdict l =
      (l.att.kind ≡ verdict_kind)
      × (on_revision ctx l ≡ true)
      × IsCounted permille ctx asked_confidence l
