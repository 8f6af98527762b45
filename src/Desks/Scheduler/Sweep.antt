-- ===== src/Desks/Scheduler/Sweep.antt =====
-- packages/desks/src/mm_desks/scheduler.py: the sweep that finds the windows that were missed. The
-- dictionaries of the report are records, and its texts of instants are instants.
pub mod Laws
pub mod Answered
pub mod Count
use market_memory.Prelude.{
  ℕ, ◌+◌, ◌*◌, Bool, true, false, Option, none, some, List, [], ◌∷◌, ◌++◌, String, ltb, leb, ◌&&◌,
  ◌||◌, not, if◌then◌else◌, or_default,
}
use market_memory.Prelude.Int.{ℤ}
use market_memory.Desks.Scheduler.{
  Clock, Routine, Completion, Catalog, Status, ok_status, early, late, missed, skipped,
  wrong_anchor, Key, key_of, is_fire, enabled, seconds_per_day, micros,
}
use market_memory.Desks.Scheduler.Anchors.{anchors_between, closed_anchors, window_closed}
use market_memory.Desks.Scheduler.Fire.{wrong_anchor_reason}
use market_memory.Desks.Scheduler.Report.{
  Miss, Seen, Pending, Wrong, Tally, SweepResult, empty_tally,
}
use market_memory.Desks.Scheduler.Index.{Index, get, key_in, index_completions}

-- What the loops read: the clock, the sweep's arguments and the index.
pub record Sweep : Type 0 where
  pub clock : Clock
  pub now : ℕ
  pub lookback_days : ℕ
  pub indexed : Index
  pub known_keys : List Key
  pub baseline_before : Option ℕ

seen_of : Routine → ℕ → Completion → Seen
seen_of r anchor hit = record {
  routine_id = r.routine_id;
  scheduled_anchor_ts = anchor;
  status = hit.status;
  delta_seconds = hit.delta_seconds;
  run_id = hit.run_id;
}

note_fire : Status → Seen → Tally → Tally
note_fire ok_status row t = record t { ok = t.ok ++ row ∷ [] }
note_fire early row t = record t { early = t.early ++ row ∷ [] }
note_fire late row t = record t { late = t.late ++ row ∷ [] }
note_fire skipped row t = record t { skipped = t.skipped ++ row ∷ [] }
note_fire wrong_anchor row t = t
note_fire missed row t = t

-- `sydney_day < baseline_before`, with `sydney_calendar_date`.
before_baseline : Clock → ℕ → Option ℕ → Bool
before_baseline clock anchor none = false
before_baseline clock anchor (some day) = ltb (clock.date_of "Australia/Sydney" anchor) day

-- `is_known`
unfoldable pub is_known : Sweep → Routine → ℕ → Bool
unfolding before_baseline
is_known s r anchor =
    key_in (r.routine_id, anchor) s.known_keys || before_baseline s.clock anchor s.baseline_before

-- `KNOWN_MISSED_LABEL`
abbrev pub known_missed_label : String
known_missed_label = "known-missed"

unfoldable pub miss_of : Sweep → Routine → ℕ → Miss
miss_of s r anchor = record {
  routine_id = r.routine_id;
  family = r.family;
  scheduled_anchor_ts = anchor;
  window_closed_at = anchor + micros r.miss_after_seconds;
  incident = r.incident;
  reason = "closed_window_no_completion";
  label = if is_known s r anchor then some known_missed_label else none;
}

note_miss : Sweep → Routine → ℕ → Tally → Tally
note_miss s r anchor t =
    let row = miss_of s r anchor in
    if is_known s r anchor
    then record t { known_missed = t.known_missed ++ row ∷ [] }
    else record t { misses = t.misses ++ row ∷ [] }

-- The body of the loop over closed anchors.
unfoldable pub sweep_anchor : Sweep → Routine → ℕ → Tally → Tally
unfolding note_miss note_fire seen_of
sweep_anchor s r anchor t = elim (get (r.routine_id, anchor) s.indexed) [
  | none ↦ note_miss s r anchor t
  | some hit ↦
      if is_fire hit.status
      then note_fire hit.status (seen_of r anchor hit) t
      else note_miss s r anchor t
]

unfoldable pub sweep_anchors : Sweep → Routine → List ℕ → Tally → Tally
sweep_anchors s r [] t = t
sweep_anchors s r (anchor ∷ anchors) t = sweep_anchors s r anchors (sweep_anchor s r anchor t)

-- `next_open`
unfoldable pub keep_open : ℕ → ℕ → List ℕ → List ℕ
keep_open now miss_after [] = []
keep_open now miss_after (t ∷ ts) =
    let rest = keep_open now miss_after ts in
    if window_closed t now miss_after then rest else t ∷ rest

-- What a routine adds to pending.
unfoldable pub pending_row : ℕ → Routine → List ℕ → List ℕ → List Pending
pending_row now r closed [] = []
pending_row now r closed (t ∷ ts) =
    if ltb now (t + micros r.miss_after_seconds) && leb t now
    then record { routine_id = r.routine_id; scheduled_anchor_ts = t; reason = "window_open" } ∷ []
    else elim closed [
      | _ ∷ _ ↦ []
      | [] ↦
          record {
            routine_id = r.routine_id;
            scheduled_anchor_ts = t;
            reason = "no_closed_window_in_lookback";
          }
          ∷ []
    ]

closed_of : Sweep → Routine → List ℕ
closed_of s r = closed_anchors s.clock r s.now s.lookback_days

pending_of : Sweep → Routine → List Pending
unfolding closed_of
pending_of s r =
    let ahead =
      anchors_between s.clock r s.now (s.now + micros (s.lookback_days * seconds_per_day)) in
    pending_row s.now r (closed_of s r) (keep_open s.now r.miss_after_seconds ahead)

-- The loop over the enabled routines, list by list.
unfoldable pub sweep_routines : Sweep → List Routine → Tally → Tally
unfolding closed_of
sweep_routines s [] t = t
sweep_routines s (r ∷ rs) t = sweep_routines s rs (sweep_anchors s r (closed_of s r) t)

unfoldable pub pending_routines : Sweep → List Routine → List Pending
unfolding pending_of
pending_routines s [] = []
pending_routines s (r ∷ rs) = pending_of s r ++ pending_routines s rs

ids_of : List Routine → List String
ids_of [] = []
ids_of (r ∷ rs) = r.routine_id ∷ ids_of rs

-- `hit.reason or WRONG_ANCHOR_REASON`
reason_or : Option String → String
reason_or none = wrong_anchor_reason
reason_or (some r) = or_default r wrong_anchor_reason

wrong_of : Completion → Wrong
wrong_of hit = record {
  routine_id = hit.routine_id;
  scheduled_anchor_ts = hit.scheduled_anchor_ts;
  fired_at_ts = hit.fired_at_ts;
  delta_seconds = hit.delta_seconds;
  reason = reason_or hit.reason;
  run_id = hit.run_id;
}

unfoldable pub is_wrong : Status → Bool
is_wrong wrong_anchor = true
is_wrong ok_status = false
is_wrong early = false
is_wrong late = false
is_wrong skipped = false
is_wrong missed = false

-- The loop over the completions, which reports each wrong anchor once.
unfoldable pub wrong_rows : List Key → List Completion → List Wrong
unfolding wrong_of reason_or
wrong_rows seen [] = []
wrong_rows seen (hit ∷ hits) =
    let skip = wrong_rows seen hits in
    let note = wrong_of hit ∷ wrong_rows (key_of hit ∷ seen) hits in
    if is_wrong hit.status && not (key_in (key_of hit) seen) then note else skip

-- The keyword arguments of miss_sweep.
pub record SweepArgs : Type 0 where
  pub lookback_days : Option ℕ
  pub known_missed : List Key
  pub baseline_before : Option ℕ
  pub baseline_path : Option String

abbrev days_or : Option ℕ → ℕ → ℕ
days_or none d = d
days_or (some n) d = n

unfoldable pub sweep_of : Clock → Catalog → List Completion → ℕ → SweepArgs → Sweep
sweep_of clock c rows now args = record {
  clock = clock;
  now = now;
  lookback_days = days_or args.lookback_days c.lookback_days;
  indexed = index_completions rows;
  known_keys = args.known_missed;
  baseline_before = args.baseline_before;
}

-- `miss_sweep`
unfoldable pub miss_sweep : Clock → Catalog → List Completion → ℕ → SweepArgs → SweepResult
unfolding ids_of
miss_sweep clock c rows now args =
    let s = sweep_of clock c rows now args in
    record {
      now = now;
      as_of_knowledge = now;
      tally = sweep_routines s (enabled c) empty_tally;
      pending = pending_routines s (enabled c);
      routines_checked = ids_of (enabled c);
      wrong_anchor = wrong_rows [] rows;
      baseline_path = args.baseline_path;
      baseline_before = args.baseline_before;
    }
