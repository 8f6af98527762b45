-- ===== src/Desks/Scheduler/Routines.antt =====
-- packages/desks/src/mm_desks/scheduler.py: the catalog from rows of YAML. A row holds the values
-- that YAML and the parsers of instants and of times of day give; rows that are no mappings are
-- left out before.
pub mod Laws
use Prim.Native.String.{◌++◌ as append}
use market_memory.Prelude.{
  zero, suc, suc, ℕ, Bool, true, false, Option, none, some, List, [], ◌∷◌, ◌++◌, String, str_eq,
  contains, lower, strip, ◌||◌, not, truthy, or_default, text_in, if◌then◌else◌, is_none, Result,
  ok, err, or_raise, raise_if, ◌>>=◌, ◌>>◌,
}
use market_memory.Prelude.Int.{ℤ}
use market_memory.Desks.Scheduler.{
  Clock, Status, ok_status, early, late, missed, skipped, wrong_anchor, Routine, Completion,
  Catalog,
}
use market_memory.Desks.Scheduler.Fire.{Fire, stamp_fire, delta_seconds, classify_delta}

-- `_is_canary`
unfoldable pub is_canary : String → String → Bool
is_canary routine_id display = contains "canary" (lower (append routine_id (append " " display)))

-- The row of a routine.
pub record RoutineRow : Type 0 where
  pub id : Option String
  pub routine_id : Option String
  pub display : Option String
  pub family : Option String
  pub incident : Option String
  pub timezone : Option String
  pub local_time : ℕ
  pub weekdays : List String
  pub enabled : Option Bool
  pub created_at : Option ℕ
  pub updated_at : Option ℕ
  pub late_after_seconds : ℕ
  pub miss_after_seconds : ℕ
  pub notes : Option String
  pub source : Option String

-- `first or second or ""`
abbrev pub text_of : Option String → String → String
text_of none d = d
text_of (some t) d = or_default t d

abbrev pub id_of : RoutineRow → String
id_of row = strip (text_of row.id (text_of row.routine_id ""))

-- `int(value or default)`
abbrev nat_or : ℕ → ℕ → ℕ
nat_or zero d = d
nat_or (suc n) d = suc n

abbrev flag_or : Option Bool → Bool → Bool
flag_or none d = d
flag_or (some b) d = b

-- `_weekdays`
unfoldable pub weekdays_of : List String → List String
weekdays_of [] = "Mon" ∷ "Tue" ∷ "Wed" ∷ "Thu" ∷ "Fri" ∷ []
weekdays_of (d ∷ ds) = d ∷ ds

-- `None if not value else str(value)`
abbrev pub given : Option String → Option String
given i = if truthy i then i else none

pub data FamilyError : Type 0 where
  unknown_family : String → FamilyError

-- `routine_from_mapping`
unfoldable pub routine_from_mapping :
    RoutineRow → ℕ → ℕ → String → Result FamilyError (Option Routine)
routine_from_mapping row late_after miss_after source =
    let routine_id = id_of row in
    let display = text_of row.display "" in
    let family = strip (text_of row.family "lab") in
    if str_eq routine_id "" || is_canary routine_id display
    then ok none
    else if not (text_in family ("lab" ∷ "grok_bot" ∷ []))
    then err (unknown_family family)
    else ok (
        some (record {
          routine_id = routine_id;
          family = family;
          timezone = text_of row.timezone "Australia/Sydney";
          local_time = row.local_time;
          weekdays = weekdays_of row.weekdays;
          enabled = flag_or row.enabled true;
          display = or_default display routine_id;
          incident = given row.incident;
          created_at = row.created_at;
          updated_at = row.updated_at;
          late_after_seconds = nat_or row.late_after_seconds late_after;
          miss_after_seconds = nat_or row.miss_after_seconds miss_after;
          notes = strip (text_of row.notes "");
          source = text_of row.source source;
        }))

-- `merged[row.routine_id] = row`, on a dict in insertion order.
unfoldable pub put_routine : Routine → List Routine → List Routine
put_routine row [] = row ∷ []
put_routine row (r ∷ rs) =
    if str_eq r.routine_id row.routine_id then row ∷ rs else r ∷ put_routine row rs

-- The loop of load_catalog.
unfoldable pub merge_routines : List Routine → List Routine → List Routine
merge_routines [] merged = merged
merge_routines (r ∷ rs) merged =
    if is_canary r.routine_id r.display
    then merge_routines rs merged
    else merge_routines rs (put_routine r merged)

abbrev found_or : Option Routine → Option Routine → Option Routine
found_or none d = d
found_or (some r) d = some r

-- `catalog.by_id().get(routine_id)`: the last routine of the id.
unfoldable pub by_id : String → List Routine → Option Routine
by_id key [] = none
by_id key (r ∷ rs) = found_or (by_id key rs) (if str_eq r.routine_id key then some r else none)
