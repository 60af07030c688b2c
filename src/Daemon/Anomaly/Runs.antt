-- ===== src/Daemon/Anomaly/Runs.antt =====
-- A concrete repository of one agent, and the theorems at concrete inputs.
use tessra.Prelude.{
  pos, ◌≡◌, refl, arith, false, List, [], ◌∷◌, Bytes, codes, Option, none, some, eqb, contains,
  lookup, put, list_ord, nat_ord,
}
use tessra.Core.Result.{Result, ok}
use tessra.Core.Id.{EntityId}
use tessra.Core.Value.{Value}
use tessra.Daemon.Anomaly.{AnomalyState, load, Repo, Report, record_once}
use tessra.Daemon.Anomaly.Laws.{IsBounded}
use tessra.Daemon.Anomaly.Once.{record_once-IsBounded}

abbrev World : Type 0
World = Unit {0}

abbrev session_agent : World → EntityId → Option EntityId
session_agent w p = some p

abbrev config : World → Bytes → Option Value
config w key = none

abbrev revoke_agent : World → EntityId → Result World
revoke_agent w a = ok w

abbrev fire : World → Bytes → Report → Result World
fire w kind r = ok w

abbrev agent : EntityId
agent = codes "agent"

abbrev what : Bytes
what = codes "write outside claims"

abbrev quiet : Repo World
quiet = record { files = []; world = tt }

-- Four points are one more than the threshold of throttling.
abbrev throttled_state : List Bytes → AnomalyState
throttled_state charged = record {
  score = 4;
  events = (1000, what) ∷ [];
  throttled_until = pos 60000001000;
  throttles = 1;
  charged = charged;
}

abbrev throttled_report : Report
throttled_report = record { agent = agent; score = 4; revoked = false; throttled_s = some (pos 60) }

abbrev throttled : List Bytes → Repo World
throttled charged = record { files = (agent, throttled_state charged) ∷ []; world = tt }

recorded_once :
    record_once session_agent config revoke_agent fire quiet 1000 agent what 4 (codes "k")
    ≡ ok (some throttled_report, throttled (codes "k" ∷ []))
unfolding record_once put lookup contains eqb
recorded_once = refl

quiet-IsBounded : (c : EntityId) → IsBounded (load quiet.files c)
unfolding load lookup
quiet-IsBounded c = omega arith

record_once-IsBounded_example : IsBounded (load (throttled (codes "k" ∷ [])).files agent)
record_once-IsBounded_example =
    record_once-IsBounded session_agent config revoke_agent fire quiet (throttled (codes "k" ∷ []))
      1000 agent agent agent what 4 (codes "k") (some throttled_report) refl recorded_once
      quiet-IsBounded
