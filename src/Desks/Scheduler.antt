-- ===== src/Desks/Scheduler.antt =====
-- packages/desks/src/mm_desks/scheduler.py: routines, completions and the catalog. An instant is a
-- whole number of microseconds in UTC, a day its ordinal, and the time of a day its seconds. The time
-- zones are a parameter: zoneinfo gives the local date of an instant and the instant of a local
-- time. An instant before the first one, which Python refuses, is the first one here.
pub mod Fire
pub mod Anchors
pub mod Index
pub mod Report
pub mod Sweep
pub mod Baseline
pub mod Routines
pub mod Rows
pub mod Samples
mod Tests
mod Examples
use market_memory.Prelude.{
  ◌*◌, ℕ, Bool, true, false, Option, List, [], ◌∷◌, String, str_eq, ◌&&◌, ◌==◌, if◌then◌else◌,
}
use market_memory.Prelude.Int.{ℤ}

-- What zoneinfo answers for a named zone.
pub record Clock : Type 0 where
  pub date_of : String → ℕ → ℕ
  pub instant : String → ℕ → ℕ → ℕ

-- `STATUSES`
pub data Status : Type 0 where
  ok_status early late missed skipped wrong_anchor : Status

-- `STATUS_RANK`
abbrev pub rank : Status → ℕ
rank ok_status = 5
rank late = 4
rank early = 3
rank skipped = 2
rank wrong_anchor = 1
rank missed = 0

-- `FIRE_STATUSES`
abbrev pub is_fire : Status → Bool
is_fire ok_status = true
is_fire early = true
is_fire late = true
is_fire skipped = true
is_fire wrong_anchor = false
is_fire missed = false

-- `Routine`
pub record Routine : Type 0 where
  pub routine_id : String
  pub family : String
  pub timezone : String
  pub local_time : ℕ
  pub weekdays : List String
  pub enabled : Bool
  pub display : String
  pub incident : Option String
  pub created_at : Option ℕ
  pub updated_at : Option ℕ
  pub late_after_seconds : ℕ
  pub miss_after_seconds : ℕ
  pub notes : String
  pub source : String

-- `Completion`
pub record Completion : Type 0 where
  pub routine_id : String
  pub run_id : String
  pub scheduled_anchor_ts : ℕ
  pub fired_at_ts : Option ℕ
  pub delta_seconds : Option ℤ
  pub status : Status
  pub as_of_knowledge : ℕ
  pub source : String
  pub exit_status : Option ℤ
  pub payload_path : Option String
  pub cli : Option String
  pub reason : Option String

-- `Catalog`
pub record Catalog : Type 0 where
  pub routines : List Routine
  pub late_after_seconds : ℕ
  pub miss_after_seconds : ℕ
  pub lookback_days : ℕ
  pub lab_timezone : String

enabled_of : List Routine → List Routine
enabled_of [] = []
enabled_of (r ∷ rs) = let rest = enabled_of rs in if r.enabled then r ∷ rest else rest

-- `Catalog.enabled`
unfoldable pub enabled : Catalog → List Routine
unfolding enabled_of
enabled c = enabled_of c.routines

-- The key of a window: a routine and an anchor.
abbrev pub Key : Type 0
Key = String × ℕ

abbrev pub key_eq : Key → Key → Bool
key_eq (r, a) (s, b) = str_eq r s && (a == b)

abbrev pub key_of : Completion → Key
key_of c = (c.routine_id, c.scheduled_anchor_ts)

abbrev pub seconds_per_day : ℕ
seconds_per_day = 86400

-- `timedelta(seconds=n)`
abbrev pub micros : ℕ → ℕ
micros n = n * 1000000
