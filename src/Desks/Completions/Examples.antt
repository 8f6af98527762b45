-- ===== src/Desks/Completions/Examples.antt =====
-- packages/desks/src/mm_desks/completions.py on the Monday of the scheduler's
-- samples; the sweep runs on Wednesday at noon.
use market_memory.Desks.Scheduler.Index.{get, key_in, set, index_row, index_rows, index_completions}
use market_memory.Desks.Scheduler.Anchors.{
  window_closed, keep_closed, scan_days, anchors_between, closed_anchors,
}
use market_memory.Desks.Scheduler.Rows.{status_of, completion_from_mapping}
use market_memory.Desks.Scheduler.Report.{Miss}
use market_memory.Desks.Scheduler.Sweep.{
  miss_of, is_known, sweep_of, sweep_anchor, sweep_anchors, sweep_routines, miss_sweep, SweepArgs,
}
use market_memory.Prelude.{
  ◌++◌, List, ℕ, true, none, some, [], ◌∷◌, String, ◌≡◌, ◌≢◌, refl, ok, err, Result, ◌*◌, ◌+◌,
  strip, lower,
}
use market_memory.Prelude.Members.Memᴰ
use market_memory.Prelude.Dict.{insert, lookup}
use market_memory.Desks.Receipts.Names.{
  safe_id, sub_from, is_safe, lstrip_marks, rstrip_marks, is_mark,
}
use market_memory.Desks.Scheduler.{micros, Completion, enabled, key_of}
use market_memory.Desks.Scheduler.Samples.{west, catalog, args, stamped_monday}
use market_memory.Desks.Scheduler.Fire.{
  stamp_fire, scheduled_slot, weekday_of, is_scheduled, local_anchor, delta_seconds, classify_delta,
}
use market_memory.Desks.Scheduler.Routines.{by_id}
use market_memory.Desks.Completions.{
  missed, insert_sorted, is_json, sorted_json, load_rows, World, CliFire, record_cli_completion,
  write_completion, place, completion_filename, canonical_row, fire_of, load_disk_completions,
  RecordError,
}
use market_memory.Desks.Completions.Recorded.{recorded_not_missed}

abbrev stamp : ℕ → String
stamp t = "20260105T203000Z"

abbrev before_fire : World
before_fire = record { files = []; table = [] }

-- On Monday at 06:31, without the database.
abbrev monday_fire : CliFire
monday_fire = record {
  routine_id = "lab.morning";
  fired_at = micros (8 * 86400 + 27060);
  run_id = none;
  exit_status = none;
  payload_path = none;
  cli = some "mm pulse";
  source = "lab";
  persist_db = true;
}

abbrev Answer : Type 0
Answer = Result RecordError (Completion × World)

abbrev recorded_monday : Answer
recorded_monday =
    record_cli_completion west stamp catalog (λ files. files) ("id-1", "x") monday_fire before_fire

abbrev left : Answer → Completion × World
left (ok w) = w
left (err _) = (stamped_monday, before_fire)

abbrev after_fire : Completion × World
after_fire = left recorded_monday

recorded : recorded_monday ≡ ok after_fire
unfolding record_cli_completion write_completion place completion_filename canonical_row fire_of
    safe_id sub_from is_safe lstrip_marks rstrip_marks is_mark by_id stamp_fire scheduled_slot
    weekday_of is_scheduled local_anchor delta_seconds classify_delta
recorded = refl

abbrev noon : ℕ
noon = micros (10 * 86400 + 43200)

abbrev three_days : SweepArgs
three_days = record args { lookback_days = some 3 }

abbrev tuesday_miss : Miss
tuesday_miss = record {
  routine_id = "lab.morning";
  family = "lab";
  scheduled_anchor_ts = micros (9 * 86400 + 27000);
  window_closed_at = micros (9 * 86400 + 27900);
  incident = some "SCHED-001";
  reason = "closed_window_no_completion";
  label = none;
}

-- A row of the database says that Monday's window was missed.
abbrev database_rows : List Completion
database_rows =
    record stamped_monday { status = missed; fired_at_ts = none; delta_seconds = none } ∷ []

-- The fire of Monday was recorded, the one of Tuesday was not.
tuesday_missed :
    (miss_sweep west catalog
      (database_rows ++ load_disk_completions west stamp (some catalog) after_fire.1.files)
      noon
      three_days).tally.misses
    ≡ tuesday_miss ∷ []
unfolding record_cli_completion write_completion place completion_filename canonical_row fire_of
    safe_id sub_from is_safe lstrip_marks rstrip_marks is_mark by_id stamp_fire scheduled_slot
    weekday_of is_scheduled local_anchor delta_seconds classify_delta load_disk_completions
    load_rows sorted_json is_json insert_sorted completion_from_mapping status_of insert miss_sweep
    closed_anchors anchors_between scan_days keep_closed window_closed enabled sweep_routines
    sweep_anchors sweep_anchor sweep_of index_completions index_rows index_row get set is_known
    miss_of lookup key_in strip lower
tuesday_missed = refl

recorded_not_missed_example :
    (tuesday_miss.routine_id, tuesday_miss.scheduled_anchor_ts) ≢ key_of after_fire.0
unfolding lookup
recorded_not_missed_example =
    recorded_not_missed west stamp catalog (λ files. files) ("id-1", "x") monday_fire before_fire
      after_fire.1 after_fire.0 noon three_days database_rows tuesday_miss recorded refl refl
      (rw tuesday_missed (Memᴰ.head refl))
