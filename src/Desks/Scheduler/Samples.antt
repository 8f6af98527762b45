-- ===== src/Desks/Scheduler/Samples.antt =====
-- A zone an hour behind UTC, and a routine at half past six.
use market_memory.Prelude.Int.{pos}
use market_memory.Desks.Scheduler.Sweep.{SweepArgs}
use market_memory.Desks.Scheduler.Fire.{Fire}
use market_memory.Desks.Scheduler.{micros, ok_status, Completion, Catalog, Routine, Clock}
use Prim.Native.Nat.{◌/◌}
use market_memory.Prelude.{some, true, [], ◌+◌, ◌*◌, none, ◌∷◌, ◌-◌, ℕ}

abbrev pub west : Clock
west = record {
  date_of = λ zone t. (t - micros 3600) / micros 86400;
  instant = λ zone day time. micros (day * 86400 + time + 3600);
}

abbrev pub morning : Routine
morning = record {
  routine_id = "lab.morning";
  family = "lab";
  timezone = "Atlantic/Azores";
  local_time = 23400;
  weekdays = "Mon" ∷ "Tue" ∷ [];
  enabled = true;
  display = "Morning";
  incident = some "SCHED-001";
  created_at = none;
  updated_at = none;
  late_after_seconds = 300;
  miss_after_seconds = 900;
  notes = "";
  source = "routines.yaml";
}

abbrev pub catalog : Catalog
catalog = record {
  routines = morning ∷ [];
  late_after_seconds = 300;
  miss_after_seconds = 900;
  lookback_days = 2;
  lab_timezone = "Australia/Sydney";
}

-- Day 8 is a Monday.
abbrev pub monday : ℕ
monday = 8

abbrev pub fired : ℕ → Fire
fired t = record {
  fired_at = t;
  run_id = "run-1";
  as_of_knowledge = none;
  source = "lab";
  exit_status = none;
  payload_path = none;
  cli = none;
}

-- On Monday at 06:31.
abbrev pub on_monday : Fire
on_monday = fired (micros (8 * 86400 + 27060))

abbrev pub stamped_monday : Completion
stamped_monday = record {
  routine_id = "lab.morning";
  run_id = "run-1";
  scheduled_anchor_ts = micros (8 * 86400 + 27000);
  fired_at_ts = some (micros (8 * 86400 + 27060));
  delta_seconds = some (pos 60);
  status = ok_status;
  as_of_knowledge = micros (8 * 86400 + 27060);
  source = "lab";
  exit_status = none;
  payload_path = none;
  cli = none;
  reason = none;
}

abbrev pub args : SweepArgs
args = record {
  lookback_days = none;
  known_missed = [];
  baseline_before = none;
  baseline_path = none;
}
