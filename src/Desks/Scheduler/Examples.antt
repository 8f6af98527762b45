-- ===== src/Desks/Scheduler/Examples.antt =====
-- The laws of the scheduler on small inputs.
use market_memory.Prelude.Members.Memᴰ
use market_memory.Desks.Scheduler.Baseline.Laws.{baselined_is_quiet, known_by}
use market_memory.Desks.Scheduler.Anchors.{
  window_closed, keep_closed, scan_days, anchors_between, closed_anchors,
}
use market_memory.Desks.Scheduler.Routines.{by_id}
use market_memory.Desks.Scheduler.Rows.{
  fire_of, load_completions, completion_from_mapping, CompletionRow,
}
use market_memory.Desks.Scheduler.Baseline.RoundTrip.{baseline_roundtrip, IsFile}
use market_memory.Desks.Scheduler.Baseline.{
  merge_windows, write_known_missed_baseline, keys_of, load_known_missed_baseline, Window,
}
use market_memory.Desks.Scheduler.Report.{Miss}
use market_memory.Desks.Scheduler.Sweep.{miss_sweep, sweep_of}
use market_memory.Desks.Scheduler.Sweep.Count.{closed_windows}
use market_memory.Desks.Scheduler.Fire.Laws.{classify_delta-sides}
use market_memory.Desks.Scheduler.Fire.{
  local_anchor, weekday_of, scheduled_slot, delta_seconds, is_scheduled, stamp_fire, classify_delta,
}
use market_memory.Desks.Scheduler.Index.{
  set, index_row, index_rows, key_in, index_completions, Windows, get,
}
use market_memory.Desks.Scheduler.{
  micros, late, early, ok_status, missed, enabled, key_of, Completion,
}
use market_memory.Desks.Scheduler.Samples.{west, morning, catalog, on_monday, stamped_monday, args}
use market_memory.Prelude.{
  refl, ◌<◌, ◌≤◌, ◌↔◌, ok, false, some, none, [], ◌≡◌, ◌+◌, ◌∷◌, String, ◌*◌, List, ℕ,
}

abbrev late_monday : Completion
late_monday = record stamped_monday { status = missed; fired_at_ts = none; delta_seconds = none }

abbrev two_rows : List Completion
two_rows = stamped_monday ∷ late_monday ∷ []

best_monday : get (key_of late_monday) (index_completions two_rows) ≡ some stamped_monday
unfolding get index_completions index_rows index_row set
best_monday = refl

classify_delta-sides_example :
    let status = classify_delta (delta_seconds (micros 27000) (micros 26000)) 300 in
    let grace = micros 301 in
    ((status ≡ ok_status)
      ↔ ((micros 26000 < micros 27000 + grace) × (micros 27000 < micros 26000 + grace)))
    × ((status ≡ early) ↔ (micros 26000 + grace ≤ micros 27000))
    × ((status ≡ late) ↔ (micros 27000 + grace ≤ micros 26000))
classify_delta-sides_example = classify_delta-sides (micros 27000) (micros 26000) 300

stamp_on_monday : stamp_fire west morning on_monday ≡ ok stamped_monday
unfolding stamp_fire scheduled_slot is_scheduled weekday_of local_anchor delta_seconds
    classify_delta
stamp_on_monday = refl

-- Day 7 is a Sunday.
sunday_unscheduled :
    is_scheduled morning (west.date_of "Atlantic/Azores" (micros (7 * 86400 + 27000))) ≡ false
unfolding is_scheduled weekday_of
sunday_unscheduled = refl

abbrev wednesday_noon : ℕ
wednesday_noon = micros (10 * 86400 + 43200)

one_window_closed :
    closed_windows (sweep_of west catalog two_rows wednesday_noon args) (enabled catalog) ≡ 1
unfolding sweep_of enabled closed_anchors anchors_between scan_days keep_closed window_closed
    is_scheduled weekday_of local_anchor
one_window_closed = refl

baselined_is_quiet_example :
    let first = miss_sweep west catalog [] wednesday_noon (known_by [] args) in
    (miss_sweep west catalog [] wednesday_noon
      (known_by (merge_windows [] first.tally.misses) args)).tally.misses
    ≡ []
baselined_is_quiet_example = baselined_is_quiet west catalog [] wednesday_noon args []

abbrev a_miss : Miss
a_miss = record {
  routine_id = "lab.morning";
  family = "lab";
  scheduled_anchor_ts = 804600;
  window_closed_at = 805500;
  incident = none;
  reason = "closed_window_no_completion";
  label = none;
}

abbrev a_window : Window
a_window = record {
  routine_id = "lab.close";
  scheduled_anchor_ts = 700000;
  window_closed_at = none;
  incident = none;
  reason = "closed_window_no_completion";
  label = "known-missed";
}

abbrev old_windows : Windows Window
old_windows = (("lab.close", 700000), a_window) ∷ []

old_windows-IsFile : IsFile old_windows
unfolding IsFile key_in keys_of
old_windows-IsFile =
    (record { own_key = refl; routine = refl; reason = refl; label = refl }, refl, tt)

baseline_roundtrip_example :
    get
      ("lab.morning", 804600)
      (load_known_missed_baseline (write_known_missed_baseline old_windows (a_miss ∷ [])))
    ≡ get ("lab.morning", 804600) (merge_windows old_windows (a_miss ∷ []))
baseline_roundtrip_example =
    baseline_roundtrip old_windows (a_miss ∷ []) old_windows-IsFile
      (λ m k. rw (Memᴰ.eq_of_singleton k) (refl, refl)) ("lab.morning", 804600)

-- A row that says that it was missed, with the fire of Monday.
abbrev monday_row : CompletionRow
monday_row = record {
  routine_id = "lab.morning";
  run_id = some "run-1";
  fired_at_ts = some (micros 718260);
  scheduled_anchor_ts = some 0;
  as_of_knowledge = none;
  status = some "missed";
  delta_seconds = none;
  source = some "lab";
  exit_status = none;
  payload_path = none;
  cli = none;
  reason = none;
}

abbrev same_text : ℕ → String
same_text t = "20260101T000000Z"

monday_loads : completion_from_mapping west same_text (some catalog) monday_row ≡ ok stamped_monday
unfolding completion_from_mapping by_id stamp_fire scheduled_slot is_scheduled weekday_of
    local_anchor delta_seconds classify_delta fire_of
monday_loads = refl

found_routine : by_id "lab.morning" (morning ∷ []) ≡ some morning
unfolding by_id
found_routine = refl

rows_load :
    load_completions west same_text (some catalog) (monday_row ∷ []) ≡ ok (stamped_monday ∷ [])
unfolding load_completions
rows_load = rw monday_loads refl
