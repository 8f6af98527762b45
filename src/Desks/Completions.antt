-- ===== src/Desks/Completions.antt =====
-- packages/desks/src/mm_desks/completions.py: the completion files that the miss sweep loads. The
-- directory is its files by name; a file is what completion_from_mapping reads of it, or what does
-- not load. What other processes write is an argument, and so is strftime.
pub mod Laws
pub mod Recorded
mod Examples
use Prim.Native.String.{compare, ◌++◌ as append}
use Prim.Native.Nat.{Ordering}
use market_memory.Prelude.{
  ℕ, Bool, true, false, ◌&&◌, ◌||◌, not, Option, none, some, List, [], ◌∷◌, String, str_eq,
  if◌then◌else◌, is_none, Result, ok, err, truthy, or_default, strip,
}
use market_memory.Prelude.Int.{ℤ}
use market_memory.Prelude.Dict.{Dict, lookup, insert}
use market_memory.Desks.Receipts.Names.{safe_id}
use market_memory.Desks.Scheduler.{Clock, Completion, Catalog, Routine, is_fire, Status, missed}
use market_memory.Desks.Scheduler.Fire.{Fire, stamp_fire, WrongAnchor}
use market_memory.Desks.Scheduler.Routines.{by_id, text_of}
use market_memory.Desks.Scheduler.Rows.{CompletionRow, completion_from_mapping}
use market_memory.Memory.Heartbeat.{
  ScheduleHeartbeat, Draws, HeartbeatError, persist_heartbeat, canonical, status_name,
}

-- A file that is no JSON object with a routine_id, or the row that it holds.
pub data Content : Type 0 where
  unusable : Content
  row : CompletionRow → Content

abbrev pub Files : Type 0
Files = Dict Content

pub data RecordError : Type 0 where
  unknown_routine refused_status : RecordError
  wrong_anchor_error : WrongAnchor → RecordError

-- `completion_filename`, with `strftime("%Y%m%dT%H%M%SZ")`.
unfoldable pub completion_filename : (ℕ → String) → Completion → String
completion_filename strftime c = append (or_default (safe_id c.routine_id) "routine") (
    append "__" (
      append (strftime c.scheduled_anchor_ts)
        (append "__" (append (or_default (safe_id c.run_id) "run") ".json"))))

-- What completion_from_mapping reads of `record.canonical()`.
unfoldable pub canonical_row : Completion → CompletionRow
canonical_row c = record {
  routine_id = c.routine_id;
  run_id = some c.run_id;
  fired_at_ts = c.fired_at_ts;
  scheduled_anchor_ts = some c.scheduled_anchor_ts;
  as_of_knowledge = some c.as_of_knowledge;
  status = some (status_name c.status);
  delta_seconds = c.delta_seconds;
  source = some c.source;
  exit_status = c.exit_status;
  payload_path = if truthy c.payload_path then c.payload_path else none;
  cli = if truthy c.cli then c.cli else none;
  reason = if truthy c.reason then c.reason else none;
}

abbrev is_missed : Status → Bool
is_missed missed = true
is_missed _ = false

-- `write_completion`, after the check of the status: a file that is there is left.
unfoldable pub place : String → Completion → (Files → Files) → Files → Files
place name c arrive files =
    if not (is_none (lookup name files))
    then files
    else if not (is_none (lookup name (arrive files)))
    then arrive files
    else insert name (row (canonical_row c)) (arrive files)

-- `write_completion`
unfoldable pub write_completion :
    (ℕ → String) → (Files → Files) → Completion → Files → Result RecordError Files
write_completion strftime arrive c files =
    if not (is_fire c.status) && not (is_missed c.status)
    then err refused_status
    else ok (place (completion_filename strftime c) c arrive files)

-- `glob("*.json")`
unfoldable pub is_json : String → Bool
is_json String.[] = false
is_json (String.◌∷◌ c s) = str_eq (String.◌∷◌ c s) ".json" || is_json s

abbrev pub before : String → String → Bool
before a b = elim (compare a b) [ Ordering.gt ↦ false | _ ↦ true ]

-- `sorted`, of the paths.
unfoldable pub insert_sorted : String × Content → Files → Files
insert_sorted f [] = f ∷ []
insert_sorted f (g ∷ files) = if before f.0 g.0 then f ∷ g ∷ files else g ∷ insert_sorted f files

unfoldable pub sorted_json : Files → Files
sorted_json [] = []
sorted_json (f ∷ files) =
    let rest = sorted_json files in if is_json f.0 then insert_sorted f rest else rest

-- The loop of `load_disk_completions`: a file that does not load is passed over.
unfoldable pub load_rows : Clock → (ℕ → String) → Option Catalog → Files → List Completion
load_rows clock strftime catalog [] = []
load_rows clock strftime catalog ((_, unusable) ∷ files) = load_rows clock strftime catalog files
load_rows clock strftime catalog ((_, row r) ∷ files) =
    elim (completion_from_mapping clock strftime catalog r) [
      | ok c ↦ c ∷ load_rows clock strftime catalog files
      | err _ ↦ load_rows clock strftime catalog files
    ]

-- `load_disk_completions`
unfoldable pub load_disk_completions :
    Clock → (ℕ → String) → Option Catalog → Files → List Completion
load_disk_completions clock strftime catalog files =
    load_rows clock strftime catalog (sorted_json files)

-- `DEFAULT_BRIEF_ROUTINES`
abbrev pub brief_routines : Dict String
brief_routines = ("preopen", "lab.pulse.preopen") ∷ ("close", "lab.pulse.close") ∷ []

-- `DEFAULT_DELIVER_ROUTINES`
abbrev pub deliver_routines : Dict String
deliver_routines =
    ("watchlist", "lab.delivery.watchlist")
    ∷ ("listings", "lab.delivery.listings")
    ∷ ("scorecard", "lab.delivery.scorecard")
    ∷ ("decay", "lab.delivery.decay")
    ∷ []

-- `infer_routine_id`
unfoldable pub infer_routine_id : Option String → Option String → Option String → Option String
infer_routine_id explicit brief_kind deliver_cmd =
    let given = strip (text_of explicit "") in
    if truthy explicit && truthy (some given)
    then some given
    else if truthy brief_kind
    then lookup (text_of brief_kind "") brief_routines
    else if truthy deliver_cmd
    then lookup (text_of deliver_cmd "") deliver_routines
    else none

-- `resolve_completions_dir`
unfoldable pub resolve_completions_dir : String → Option String → Dict String → String
resolve_completions_dir root override environ =
    let raw = strip (text_of (lookup "MM_SCHEDULE_COMPLETIONS_DIR" environ) "") in
    if truthy override
    then text_of override ""
    else if truthy (some raw)
    then raw
    else append root "/ops/reports/scheduler/completions"

-- The keyword arguments of `record_cli_completion`; the fire is the given one or now.
pub record CliFire : Type 0 where
  pub routine_id : String
  pub fired_at : ℕ
  pub run_id : Option String
  pub exit_status : Option ℤ
  pub payload_path : Option String
  pub cli : Option String
  pub source : String
  pub persist_db : Bool

-- The directory of completions and the table of heartbeats.
pub record World : Type 0 where
  pub files : Files
  pub table : List ScheduleHeartbeat

unfoldable pub fire_of : (ℕ → String) → CliFire → Routine → Fire
fire_of strftime f r = record {
  fired_at = f.fired_at;
  run_id = text_of f.run_id (append r.routine_id (append "-" (strftime f.fired_at)));
  as_of_knowledge = some f.fired_at;
  source = f.source;
  exit_status = f.exit_status;
  payload_path = f.payload_path;
  cli = f.cli;
}

-- The database half of `record_cli_completion`: what it raises is caught.
unfoldable pub persisted :
    Bool → Draws → Completion → List ScheduleHeartbeat → List ScheduleHeartbeat
persisted false draws c table = table
persisted true draws c table = elim (persist_heartbeat draws (canonical c) table) [
  | err _ ↦ table
  | ok (_, table') ↦ table'
]

-- `record_cli_completion`
unfoldable pub record_cli_completion :
    Clock
    → (ℕ → String)
    → Catalog
    → (Files → Files)
    → Draws
    → CliFire
    → World
    → Result RecordError (Completion × World)
record_cli_completion clock strftime catalog arrive draws f w =
    elim (by_id f.routine_id catalog.routines) [
      | none ↦ err unknown_routine
      | some r ↦ elim (stamp_fire clock r (fire_of strftime f r)) [
        | err e ↦ err (wrong_anchor_error e)
        | ok c ↦ elim (write_completion strftime arrive c w.files) [
          | err e ↦ err e
          | ok files ↦
              ok (c, record { files = files; table = persisted f.persist_db draws c w.table })
        ]
      ]
    ]
