-- ===== src/Daemon/Anomaly.antt =====
-- crates/tessra-daemon/src/anomaly.rs: points against an agent, its throttling and its revocation.
pub mod Laws
pub mod Once
pub mod Runs
use tessra.Prelude.{
  ℕ, zero, suc, ℤ, pos, negsuc, ◌+◌, ◌*◌, ◌-◌, ◌%◌, ◌^◌, Bool, true, false, List, [], ◌∷◌, ◌++◌,
  Bytes, codes, length, drop, Option, none, some, if◌then◌else◌, ltb, leb, ◌==◌, ◌&&◌, eqb,
  contains, lookup, put, list_ord, nat_ord,
}
use tessra.Core.Result.{Result, ok, err, ◌>>=◌, Error}
use tessra.Core.Id.{EntityId}
use tessra.Core.Value.{Value}

-- Times are nanoseconds since the epoch.
pub record AnomalyState : Type 0 where
  pub score : ℕ
  pub events : List (ℕ × Bytes)
  pub throttled_until : ℤ
  pub throttles : ℕ
  pub charged : List Bytes

-- An `i64` from its sum modulo 2 ^ 64, and `t > now`.
unfoldable pub wrap_i64 : ℕ → ℤ
wrap_i64 n =
    if ltb (n % 2 ^ 64) (2 ^ 63) then pos (n % 2 ^ 64) else negsuc (2 ^ 64 - 1 - n % 2 ^ 64)

unfoldable pub is_after : ℤ → ℕ → Bool
is_after (pos t) now = ltb now t
is_after (negsuc t) now = false

-- `AnomalyState::default()`
abbrev pub no_anomaly : AnomalyState
no_anomaly = record { score = 0; events = []; throttled_until = pos 0; throttles = 0; charged = [] }

-- `load`: the files of the directory `anomalies`, by agent.
unfoldable pub or_default : Option AnomalyState → AnomalyState
or_default none = no_anomaly
or_default (some s) = s

unfoldable pub load : List (EntityId × AnomalyState) → EntityId → AnomalyState
unfolding or_default
load files agent = or_default (lookup agent files)

-- `push`, then `remove(0)` past a length.
unfoldable pub push_capped {ℓ} : {A : Type ℓ} → ℕ → A → List A → List A
push_capped cap x xs =
    if ltb cap (length (xs ++ x ∷ [])) then drop 1 (xs ++ x ∷ []) else xs ++ x ∷ []

-- `str::parse::<u64>`
unfoldable pub parse_digits : ℕ → Bytes → Option ℕ
parse_digits n [] = some n
parse_digits n (c ∷ cs) =
    let rest = parse_digits (n * 10 + (c - 48)) cs in
    if leb 48 c && leb c 57 && ltb (n * 10 + (c - 48)) (2 ^ 64) then rest else none

unfoldable pub unsigned : Bytes → Option ℕ
unsigned [] = none
unsigned (c ∷ cs) = parse_digits 0 (c ∷ cs)

unfoldable pub parse_u64 : Bytes → Option ℕ
unfolding unsigned parse_digits
parse_u64 [] = none
parse_u64 (c ∷ cs) = if c == 43 then unsigned cs else unsigned (c ∷ cs)

unfoldable pub or_number : Option ℕ → ℕ → ℕ
or_number none default = default
or_number (some n) default = n

unfoldable pub config_u64 : Option Value → ℕ → ℕ
unfolding parse_u64 or_number
config_u64 (some (Value.integer n)) default = n % 2 ^ 64
config_u64 (some (Value.negative n)) default = 0
config_u64 (some (Value.text t)) default = or_number (parse_u64 t) default
config_u64 _ default = default

-- The files, and the rest of the repository.
pub record Repo (W : Type 0) : Type 0 where
  pub files : List (EntityId × AnomalyState)
  pub world : W

-- What `record` reports, as a `Json`: the score, whether the agent was revoked, and for how long it
-- is throttled.
pub record Report : Type 0 where
  pub agent : EntityId
  pub score : ℕ
  pub revoked : Bool
  pub throttled_s : Option ℤ

abbrev pub report : EntityId → ℕ → Report
report agent score = record { agent = agent; score = score; revoked = false; throttled_s = none }

-- The score and the events after one more anomaly.
unfoldable pub charge : AnomalyState → ℕ → Bytes → ℕ → AnomalyState
unfolding push_capped
charge s now what points = record s {
  score = (s.score + points) % 2 ^ 32;
  events = push_capped 50 (now, what) s.events;
}

unfoldable pub throttle : AnomalyState → ℕ → ℕ → AnomalyState
unfolding wrap_i64
throttle s now cooldown = record s {
  throttled_until = wrap_i64 (now + cooldown * 1000000000);
  throttles = (s.throttles + 1) % 2 ^ 32;
}

module _ {W : Type 0}
    -- `Repo::session_agent`, `Repo::config`, `swarm::revoke_agent` with its unwinding of unlanded
    -- work, and the event that the hooks of a kind are fired with.
    (session_agent : W → EntityId → Option EntityId) (config : W → Bytes → Option Value)
    (revoke_agent : W → EntityId → Result W) (fire : W → Bytes → Report → Result W) where
  unfoldable pub throttle_at : W → ℕ
  unfolding config_u64
  throttle_at w = config_u64 (config w (codes "anomaly_throttle")) 3 % 2 ^ 32

  unfoldable pub revoke_at : W → ℕ
  unfolding config_u64
  revoke_at w = config_u64 (config w (codes "anomaly_revoke")) 6 % 2 ^ 32

  unfoldable pub cooldown : W → ℕ
  unfolding config_u64
  cooldown w = config_u64 (config w (codes "anomaly_cooldown_s")) 60

  unfoldable pub refuse_until : ℕ → ℤ → Result (Unit {0})
  unfolding is_after
  refuse_until now t = if is_after t now then err Error.throttled else ok tt

  unfoldable pub check_agent : Repo W → ℕ → Option EntityId → Result (Unit {0})
  unfolding load refuse_until
  check_agent repo now none = ok tt
  check_agent repo now (some agent) = refuse_until now (load repo.files agent).throttled_until

  unfoldable pub check : Repo W → ℕ → EntityId → Result (Unit {0})
  unfolding check_agent
  check repo now principal = check_agent repo now (session_agent repo.world principal)

  abbrev pub Outcome : Type 0
  Outcome = Result (Option Report × Repo W)

  -- The last three cases of `record`, on the state with the new score.
  unfoldable pub revoke_now : Repo W → EntityId → AnomalyState → Outcome
  revoke_now repo agent s =
      let r = record (report agent s.score) { revoked = true } in
      revoke_agent repo.world agent >>= λ w. fire w (codes "anomaly.revoked") r >>= λ w'.
      ok (some r, record { files = put agent s repo.files; world = w' })

  unfoldable pub throttle_now : Repo W → EntityId → ℕ → AnomalyState → Outcome
  unfolding throttle cooldown
  throttle_now repo agent now s =
      let r = record (report agent s.score) {
        throttled_s = some (wrap_i64 (cooldown repo.world));
      } in
      fire repo.world (codes "anomaly.detected") r >>= λ w. ok (
        some r,
        record { files = put agent (throttle s now (cooldown repo.world)) repo.files; world = w },
      )

  unfoldable pub settle : Repo W → EntityId → ℕ → AnomalyState → Outcome
  unfolding revoke_now throttle_now revoke_at throttle_at
  settle repo agent now s =
      if leb (revoke_at repo.world) s.score
      then revoke_now repo agent s
      else if leb (throttle_at repo.world) s.score
      then throttle_now repo agent now s
      else ok (
        some (report agent s.score),
        record { files = put agent s repo.files; world = repo.world },
      )

  unfoldable pub record_agent : Repo W → ℕ → Option EntityId → Bytes → ℕ → Outcome
  unfolding settle charge load
  record_agent repo now none what points = ok (none, repo)
  record_agent repo now (some agent) what points =
      settle repo agent now (charge (load repo.files agent) now what points)

  unfoldable pub record_anomaly : Repo W → ℕ → EntityId → Bytes → ℕ → Outcome
  unfolding record_agent
  record_anomaly repo now principal what points =
      record_agent repo now (session_agent repo.world principal) what points

  unfoldable pub record_once_agent :
      Repo W → ℕ → EntityId → Option EntityId → Bytes → ℕ → Bytes → Outcome
  unfolding record_anomaly push_capped load
  record_once_agent repo now principal none what points key = ok (none, repo)
  record_once_agent repo now principal (some agent) what points key =
      let s = load repo.files agent in
      let charged = record s { charged = push_capped 200 key s.charged } in
      let go =
        record_anomaly (record { files = put agent charged repo.files; world = repo.world }) now
          principal what points in
      if contains s.charged key then ok (none, repo) else go

  unfoldable pub record_once : Repo W → ℕ → EntityId → Bytes → ℕ → Bytes → Outcome
  unfolding record_once_agent
  record_once repo now principal what points key =
      record_once_agent repo now principal (session_agent repo.world principal) what points key
