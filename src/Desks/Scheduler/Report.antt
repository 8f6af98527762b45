-- ===== src/Desks/Scheduler/Report.antt =====
-- packages/desks/src/mm_desks/scheduler.py: what a sweep reports.
use market_memory.Prelude.{ℕ, Option, List, [], String}
use market_memory.Prelude.Int.{ℤ}
use market_memory.Desks.Scheduler.{Status}

-- `Miss`
pub record Miss : Type 0 where
  pub routine_id : String
  pub family : String
  pub scheduled_anchor_ts : ℕ
  pub window_closed_at : ℕ
  pub incident : Option String
  pub reason : String
  pub label : Option String

-- A row of the lists ok, early, late and skipped.
pub record Seen : Type 0 where
  pub routine_id : String
  pub scheduled_anchor_ts : ℕ
  pub status : Status
  pub delta_seconds : Option ℤ
  pub run_id : String

-- A row of the list pending.
pub record Pending : Type 0 where
  pub routine_id : String
  pub scheduled_anchor_ts : ℕ
  pub reason : String

-- A row of the list wrong_anchor.
pub record Wrong : Type 0 where
  pub routine_id : String
  pub scheduled_anchor_ts : ℕ
  pub fired_at_ts : Option ℕ
  pub delta_seconds : Option ℤ
  pub reason : String
  pub run_id : String

-- The lists that the loop over closed anchors fills.
pub record Tally : Type 0 where
  pub misses : List Miss
  pub known_missed : List Miss
  pub ok : List Seen
  pub early : List Seen
  pub late : List Seen
  pub skipped : List Seen

-- `SweepResult`
pub record SweepResult : Type 0 where
  pub now : ℕ
  pub as_of_knowledge : ℕ
  pub tally : Tally
  pub pending : List Pending
  pub routines_checked : List String
  pub wrong_anchor : List Wrong
  pub baseline_path : Option String
  pub baseline_before : Option ℕ

abbrev pub empty_tally : Tally
empty_tally = record {
  misses = [];
  known_missed = [];
  ok = [];
  early = [];
  late = [];
  skipped = [];
}
