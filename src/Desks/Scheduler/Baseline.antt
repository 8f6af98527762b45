-- ===== src/Desks/Scheduler/Baseline.antt =====
-- packages/desks/src/mm_desks/scheduler.py: the baseline of known missed windows, as the dict that
-- is written and read. The sorting of its rows and YAML's texts are left out.
pub mod Laws
pub mod RoundTrip
use market_memory.Prelude.{
  ℕ, Option, none, some, List, [], ◌∷◌, String, or_default, Bool, true, false, ◌&&◌, not, truthy,
  if◌then◌else◌,
}
use market_memory.Desks.Scheduler.{Key}
use market_memory.Desks.Scheduler.Index.{Windows, set}
use market_memory.Desks.Scheduler.Report.{Miss}
use market_memory.Desks.Scheduler.Sweep.{known_missed_label}

-- A value of the dict of known windows.
pub record Window : Type 0 where
  pub routine_id : String
  pub scheduled_anchor_ts : ℕ
  pub window_closed_at : Option ℕ
  pub incident : Option String
  pub reason : String
  pub label : String

window_of : Miss → Window
window_of m = record {
  routine_id = m.routine_id;
  scheduled_anchor_ts = m.scheduled_anchor_ts;
  window_closed_at = some m.window_closed_at;
  incident = m.incident;
  reason = m.reason;
  label = known_missed_label;
}

abbrev pub key_of_miss : Miss → Key
key_of_miss m = (m.routine_id, m.scheduled_anchor_ts)

-- The merge of write_known_missed_baseline.
unfoldable pub merge_windows : Windows Window → List Miss → Windows Window
unfolding window_of
merge_windows merged [] = merged
merge_windows merged (m ∷ ms) = merge_windows (set (key_of_miss m) (window_of m) merged) ms

-- A row of the file, when it is a mapping.
pub record WindowRow : Type 0 where
  pub routine_id : Option String
  pub scheduled_anchor_ts : Option ℕ
  pub window_closed_at : Option ℕ
  pub incident : Option String
  pub reason : Option String
  pub label : Option String

text_or : Option String → String → String
text_or none d = d
text_or (some t) d = or_default t d

row_window : String → ℕ → WindowRow → Window
unfolding text_or
row_window routine anchor row = record {
  routine_id = routine;
  scheduled_anchor_ts = anchor;
  window_closed_at = row.window_closed_at;
  incident = row.incident;
  reason = text_or row.reason "closed_window_no_completion";
  label = text_or row.label known_missed_label;
}

load_row : WindowRow → Windows Window → Windows Window
unfolding row_window
load_row row out = elim row.routine_id [
  | none ↦ out
  | some routine ↦ elim row.scheduled_anchor_ts [
    | none ↦ out
    | some anchor ↦
        if truthy (some routine)
        then set (routine, anchor) (row_window routine anchor row) out
        else out
  ]
]

load_rows : List WindowRow → Windows Window → Windows Window
unfolding load_row
load_rows [] out = out
load_rows (row ∷ rows) out = load_rows rows (load_row row out)

-- `load_known_missed_baseline`
unfoldable pub load_known_missed_baseline : List WindowRow → Windows Window
unfolding load_rows
load_known_missed_baseline rows = load_rows rows []

-- The rows of the file that write_known_missed_baseline writes.
row_of : Window → WindowRow
row_of w = record {
  routine_id = some w.routine_id;
  scheduled_anchor_ts = some w.scheduled_anchor_ts;
  window_closed_at = w.window_closed_at;
  incident = w.incident;
  reason = some w.reason;
  label = some w.label;
}

unfoldable pub rows_of : Windows Window → List WindowRow
unfolding row_of
rows_of [] = []
rows_of ((k, w) ∷ rest) = row_of w ∷ rows_of rest

-- `write_known_missed_baseline`
unfoldable pub write_known_missed_baseline : Windows Window → List Miss → List WindowRow
write_known_missed_baseline existing windows = rows_of (merge_windows existing windows)

-- `known_missed.keys()`
unfoldable pub keys_of : Windows Window → List Key
keys_of [] = []
keys_of ((k, w) ∷ rest) = k ∷ keys_of rest
