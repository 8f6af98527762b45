-- ===== src/Desks/Scheduler/Rows.antt =====
-- packages/desks/src/mm_desks/scheduler.py: the completions from rows of YAML. A row holds the
-- values that YAML and the parser of instants give, the ones of payload_json where the row has none.
pub mod Laws
use Prim.Native.String.{◌++◌ as append}
use market_memory.Prelude.{
  zero, suc, suc, ℕ, Bool, true, false, Option, none, some, List, [], ◌∷◌, ◌++◌, String, str_eq,
  starts_with, lower, strip, ◌||◌, not, truthy, or_default, text_in, if◌then◌else◌, is_none, Result,
  ok, err, or_raise, raise_if, ◌>>=◌, ◌>>◌,
}
use market_memory.Prelude.Int.{ℤ}
use market_memory.Desks.Scheduler.{
  Clock, Status, ok_status, early, late, missed, skipped, wrong_anchor, Routine, Completion,
  Catalog,
}
use market_memory.Desks.Scheduler.Fire.{Fire, stamp_fire, delta_seconds, classify_delta}
use market_memory.Desks.Scheduler.Routines.{by_id, text_of, given}

-- The row of a completion; `payload_json`'s fields are those of a mapping, or none.
pub record CompletionRow : Type 0 where
  pub routine_id : String
  pub run_id : Option String
  pub fired_at_ts : Option ℕ
  pub scheduled_anchor_ts : Option ℕ
  pub as_of_knowledge : Option ℕ
  pub status : Option String
  pub delta_seconds : Option ℤ
  pub source : Option String
  pub exit_status : Option ℤ
  pub payload_path : Option String
  pub cli : Option String
  pub reason : Option String

pub data RowError : Type 0 where
  unknown_status refused : String → RowError
  no_anchor : RowError

-- The texts of STATUSES.
unfoldable pub status_of : String → Option Status
status_of t =
    if str_eq t "ok"
    then some ok_status
    else if str_eq t "early"
    then some early
    else if str_eq t "late"
    then some late
    else if str_eq t "missed"
    then some missed
    else if str_eq t "skipped"
    then some skipped
    else if str_eq t "wrong_anchor"
    then some wrong_anchor
    else none

-- What the source takes from the platform: `strftime("%Y%m%dT%H%M%SZ")`.
abbrev stamp_id : (ℕ → String) → String → ℕ → String
stamp_id strftime routine_id t = append routine_id (append "-" (strftime t))

first_of : Option ℕ → Option ℕ → Option ℕ
first_of none b = b
first_of (some a) b = some a

nat_of : Option ℕ → ℕ → ℕ
nat_of none d = d
nat_of (some n) d = n

-- `status`, once the fire is classified.
status_text : Option ℕ → Option String → Status → Option Status
status_text fired raw classified =
    if truthy raw
    then status_of (text_of raw "")
    else if is_none fired
    then some missed
    else some classified

delta_of : Option ℕ → ℕ → Option ℤ → Option ℤ
delta_of none anchor delta = delta
delta_of (some t) anchor none = some (delta_seconds anchor t)
delta_of (some t) anchor (some d) = some d

classified_of : Option ℕ → ℕ → ℕ → Status
classified_of none anchor late_after = missed
classified_of (some t) anchor late_after = classify_delta (delta_seconds anchor t) late_after

routine_of : String → Option Catalog → Option Routine
unfolding by_id
routine_of key none = none
routine_of key (some c) = by_id key c.routines

late_of : Option Routine → ℕ
late_of none = 300
late_of (some r) = r.late_after_seconds

as_of_of : CompletionRow → Option ℕ
unfolding first_of
as_of_of row = first_of row.as_of_knowledge (first_of row.fired_at_ts row.scheduled_anchor_ts)

unfoldable pub fire_of : (ℕ → String) → CompletionRow → ℕ → Fire
unfolding as_of_of first_of nat_of
fire_of strftime row t = record {
  fired_at = t;
  run_id = text_of row.run_id (stamp_id strftime row.routine_id t);
  as_of_knowledge = some (nat_of (as_of_of row) t);
  source = text_of row.source "fixture";
  exit_status = row.exit_status;
  payload_path = given row.payload_path;
  cli = given row.cli;
}

-- A row without a fire, or of a routine that the catalog does not have.
row_completion : (ℕ → String) → Option Routine → CompletionRow → ℕ → Result RowError Completion
row_completion strftime routine row anchor =
    let classified = classified_of row.fired_at_ts anchor (late_of routine) in
    or_raise (status_text row.fired_at_ts row.status classified)
      (unknown_status (text_of row.status ""))
    >>= (λ status. ok (record {
      routine_id = row.routine_id;
      run_id = text_of row.run_id (stamp_id strftime row.routine_id anchor);
      scheduled_anchor_ts = anchor;
      fired_at_ts = row.fired_at_ts;
      delta_seconds = delta_of row.fired_at_ts anchor row.delta_seconds;
      status = status;
      as_of_knowledge = nat_of (as_of_of row) anchor;
      source = text_of row.source "fixture";
      exit_status = row.exit_status;
      payload_path = given row.payload_path;
      cli = given row.cli;
      reason = given row.reason;
    }))

unstamped : (ℕ → String) → Option Routine → CompletionRow → Result RowError Completion
unstamped strftime routine row =
    raise_if (str_eq (text_of row.status "") "wrong_anchor") (refused row.routine_id)
    >> or_raise row.scheduled_anchor_ts no_anchor
    >>= (λ anchor. row_completion strftime routine row anchor)

stamp_row : Clock → (ℕ → String) → Routine → CompletionRow → ℕ → Result RowError Completion
unfolding fire_of
stamp_row clock strftime r row t = elim (stamp_fire clock r (fire_of strftime row t)) [
  | ok c ↦ ok c
  | err e ↦ err (refused row.routine_id)
]

abbrev load_row :
    Clock → (ℕ → String) → Option ℕ → Option Routine → CompletionRow → Result RowError Completion
load_row clock strftime none routine row = unstamped strftime routine row
load_row clock strftime (some t) none row = unstamped strftime none row
load_row clock strftime (some t) (some r) row = stamp_row clock strftime r row t

-- `completion_from_mapping`
unfoldable pub completion_from_mapping :
    Clock → (ℕ → String) → Option Catalog → CompletionRow → Result RowError Completion
unfolding stamp_row unstamped row_completion routine_of classified_of late_of status_text delta_of
    nat_of as_of_of fire_of first_of
completion_from_mapping clock strftime catalog row =
    load_row clock strftime row.fired_at_ts (routine_of row.routine_id catalog) row

-- The completions of `load_fixture`.
unfoldable pub load_completions :
    Clock → (ℕ → String) → Option Catalog → List CompletionRow → Result RowError (List Completion)
load_completions clock strftime catalog [] = ok []
load_completions clock strftime catalog (row ∷ rows) =
    completion_from_mapping clock strftime catalog row
    >>= (λ c. load_completions clock strftime catalog rows >>= (λ cs. ok (c ∷ cs)))
