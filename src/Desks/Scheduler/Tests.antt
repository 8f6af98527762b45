-- ===== src/Desks/Scheduler/Tests.antt =====
-- The scheduler on small inputs.
use market_memory.Desks.Scheduler.Routines.{is_canary}
use market_memory.Desks.Scheduler.Samples.{west, morning, catalog, on_monday, stamped_monday, args}
use market_memory.Desks.Scheduler.Index.{key_in, set, get, index_row, index_rows, index_completions}
use market_memory.Desks.Scheduler.{micros, enabled}
use market_memory.Desks.Scheduler.Report.{Miss, SweepResult}
use market_memory.Prelude.Members.{Memᴰ}
use market_memory.Desks.Scheduler.Anchors.{
  window_closed, keep_closed, scan_days, anchors_between, closed_anchors,
}
use market_memory.Prelude.{
  false, true, lower, contains, ◌≤◌, ◌↔◌, ℕ, ◌+◌, ◌-◌, ◌*◌, none, some, [], ◌∷◌, ok, ◌≡◌, refl,
  arith,
}
use market_memory.Desks.Scheduler.{List, Routine, Completion}
use market_memory.Desks.Scheduler.Fire.{
  stamp_fire, scheduled_slot, weekday_of, is_scheduled, local_anchor, delta_seconds, classify_delta,
}
use market_memory.Desks.Scheduler.Anchors.Laws.{closed_anchors_iff, IsAnchor, IsNear}
use market_memory.Desks.Scheduler.Sweep.{
  SweepArgs, miss_sweep, sweep_of, sweep_routines, sweep_anchors, sweep_anchor, is_known, miss_of,
}
use market_memory.Desks.Scheduler.Sweep.Laws.{mem-misses, IsMissed}

stamp_monday : stamp_fire west morning on_monday ≡ ok stamped_monday
unfolding stamp_fire scheduled_slot is_scheduled weekday_of local_anchor delta_seconds
    classify_delta
stamp_monday = refl

-- On Wednesday at noon, two windows are closed.
abbrev noon : ℕ
noon = micros (10 * 86400 + 43200)

west-IsNear : IsNear west morning
unfolding local_anchor
west-IsNear = record { before = λ day t h. omega (arith, h); after = λ day t h. omega (arith, h) }

-- The closed windows of the two days before Wednesday noon: Tuesday's, and Monday's is too old.
abbrev tuesday_anchor : ℕ
tuesday_anchor = micros (9 * 86400 + 27000)

closed_on_wednesday : closed_anchors west morning noon 2 ≡ tuesday_anchor ∷ []
unfolding closed_anchors anchors_between scan_days keep_closed window_closed is_scheduled weekday_of
    local_anchor
closed_on_wednesday = refl

closed_anchors_iff_example : Memᴰ tuesday_anchor (closed_anchors west morning noon 2) ↔ (
    IsAnchor west morning tuesday_anchor
    × (noon - micros 172800 ≤ tuesday_anchor)
    × (tuesday_anchor + micros 900 ≤ noon))
closed_anchors_iff_example = closed_anchors_iff west morning noon 2 tuesday_anchor west-IsNear

-- Three days are looked back on, so Monday's and Tuesday's windows are closed.
abbrev three_days : SweepArgs
three_days = record args { lookback_days = some 3 }

abbrev wednesday : List Completion → SweepResult
wednesday rows = miss_sweep west catalog rows noon three_days

abbrev tuesday_miss : Miss
tuesday_miss = record {
  routine_id = "lab.morning";
  family = "lab";
  scheduled_anchor_ts = tuesday_anchor;
  window_closed_at = tuesday_anchor + micros 900;
  incident = some "SCHED-001";
  reason = "closed_window_no_completion";
  label = none;
}

tuesday_missed : (wednesday (stamped_monday ∷ [])).tally.misses ≡ tuesday_miss ∷ []
unfolding miss_sweep closed_anchors anchors_between scan_days keep_closed window_closed is_scheduled
    weekday_of local_anchor enabled sweep_routines sweep_anchors sweep_anchor sweep_of
    index_completions index_rows index_row get set is_known miss_of key_in
tuesday_missed = refl

mem-misses_example : Memᴰ tuesday_miss (wednesday (stamped_monday ∷ [])).tally.misses ↔ (
    (r : Routine) × Memᴰ r (enabled catalog)
    × IsMissed
        (sweep_of west catalog (stamped_monday ∷ []) noon three_days)
        r
        (closed_anchors west r noon 3)
        tuesday_miss)
unfolding sweep_of
mem-misses_example = mem-misses west catalog (stamped_monday ∷ []) noon three_days tuesday_miss

canary_seen : is_canary "lab.Canary.one" "probe" ≡ true
unfolding is_canary contains lower
canary_seen = refl

no_canary_seen : is_canary "lab.pulse.close" "Close" ≡ false
unfolding is_canary contains lower
no_canary_seen = refl
