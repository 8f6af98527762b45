-- ===== src/Memory/Heartbeat.antt =====
-- packages/memory/src/mm_memory/heartbeat_repository.py: the rows of schedule_heartbeat. An instant
-- is a whole number of microseconds in UTC. The table is its rows in the order in which they were added;
-- the ids that new_ulid draws are arguments, and an id that is taken, or a status that the check of
-- the table does not name, is refused.
pub mod Laws
pub mod Agreement
mod Examples
use market_memory.Prelude.{
  ℕ, Bool, true, false, ◌&&◌, ◌||◌, Option, none, some, List, [], ◌∷◌, ◌++◌, String, str_eq,
  if◌then◌else◌, Result, ok, err, truthy, text_in, ◌==◌, leb,
}
use market_memory.Prelude.Int.{ℤ}
use market_memory.Prelude.Dict.{Dict, insert}
use market_memory.Desks.Scheduler.{
  Completion, Status, ok_status, early, late, missed, skipped, wrong_anchor, Key, key_eq,
}
use market_memory.Desks.Scheduler.Routines.{text_of}

-- A value of payload_json.
pub data Cell : Type 0 where
  int : ℤ → Cell
  text : String → Cell

-- The mapping that is persisted, with what its values parse to.
pub record HeartbeatRow : Type 0 where
  pub routine_id : String
  pub run_id : Option String
  pub scheduled_anchor_ts : ℕ
  pub fired_at_ts : Option ℕ
  pub delta_seconds : Option ℤ
  pub status : Option String
  pub as_of_knowledge : Option ℕ
  pub source : Option String
  pub exit_status : Option ℤ
  pub payload_path : Option String
  pub cli : Option String
  pub reason : Option String
  pub payload_json : Dict Cell

-- The dict `payload`.
pub record Payload : Type 0 where
  pub run_id : String
  pub fired_at_ts : Option ℕ
  pub delta_seconds : Option ℤ
  pub status : String
  pub as_of_knowledge : ℕ
  pub source : String
  pub payload_json : Dict Cell

-- `ScheduleHeartbeat`
pub record ScheduleHeartbeat : Type 0 where
  pub id : String
  pub routine_id : String
  pub scheduled_anchor_ts : ℕ
  pub payload : Payload

pub data HeartbeatError : Type 0 where
  status_check id_taken : HeartbeatError

-- The draws of new_ulid, for a row and for a run.
abbrev pub Draws : Type 0
Draws = String × String

-- `RANK.get(status, 0)`
unfoldable pub rank_of : String → ℕ
rank_of status =
    if str_eq status "ok"
    then 4
    else if str_eq status "late"
    then 3
    else if str_eq status "skipped"
    then 2
    else if str_eq status "wrong_anchor"
    then 1
    else 0

-- `schedule_heartbeat_status_check`
abbrev pub checked_statuses : List String
checked_statuses = "ok" ∷ "late" ∷ "missed" ∷ "skipped" ∷ "wrong_anchor" ∷ []

abbrev pub put_text : String → Option String → Dict Cell → Dict Cell
put_text name value d = if truthy value then insert name (text (text_of value "")) d else d

abbrev pub put_int : String → Option ℤ → Dict Cell → Dict Cell
put_int name none d = d
put_int name (some n) d = insert name (int n) d

-- `nested`
unfoldable pub nested_of : HeartbeatRow → Dict Cell
nested_of row = put_text "reason" row.reason (
    put_text "cli" row.cli (
      put_text "payload_path" row.payload_path
        (put_int "exit_status" row.exit_status row.payload_json)))

abbrev instant_or : Option ℕ → ℕ → ℕ
instant_or none t = t
instant_or (some s) t = s

unfoldable pub payload_of : String → HeartbeatRow → Payload
payload_of run row = record {
  run_id = text_of row.run_id run;
  fired_at_ts = row.fired_at_ts;
  delta_seconds = row.delta_seconds;
  status = text_of row.status "missed";
  as_of_knowledge =
      instant_or row.as_of_knowledge (instant_or row.fired_at_ts row.scheduled_anchor_ts);
  source = text_of row.source "lab";
  payload_json = nested_of row;
}

abbrev pub window : HeartbeatRow → Key
window row = (row.routine_id, row.scheduled_anchor_ts)

abbrev pub window_of : ScheduleHeartbeat → Key
window_of s = (s.routine_id, s.scheduled_anchor_ts)

-- The select of `persist_heartbeat`.
unfoldable pub find_window : Key → List ScheduleHeartbeat → Option ScheduleHeartbeat
find_window k [] = none
find_window k (s ∷ table) = if key_eq (window_of s) k then some s else find_window k table

-- The assignments to the fields of the row of a window.
unfoldable pub overwrite : Key → Payload → List ScheduleHeartbeat → List ScheduleHeartbeat
overwrite k p [] = []
overwrite k p (s ∷ table) =
    if key_eq (window_of s) k then record s { payload = p } ∷ table else s ∷ overwrite k p table

unfoldable pub id_in : String → List ScheduleHeartbeat → Bool
id_in id [] = false
id_in id (s ∷ table) = str_eq s.id id || id_in id table

-- `persist_heartbeat`
unfoldable pub persist_heartbeat :
    Draws
    → HeartbeatRow
    → List ScheduleHeartbeat
    → Result HeartbeatError (String × List ScheduleHeartbeat)
persist_heartbeat (id, run) row table =
    let p = payload_of run row in
    elim (find_window (window row) table) [
      | some existing ↦
          if leb (rank_of existing.payload.status) (rank_of p.status)
          then if text_in p.status checked_statuses
            then ok (existing.id, overwrite (window row) p table)
            else err status_check
          else ok (existing.id, table)
      | none ↦
          if text_in p.status checked_statuses
          then if id_in id table
            then err id_taken
            else ok (
              id,
              table
                  ++ (record {
                    id = id;
                    routine_id = row.routine_id;
                    scheduled_anchor_ts = row.scheduled_anchor_ts;
                    payload = p;
                  }
                      ∷ []),
            )
          else err status_check
    ]

-- `persist_many`
unfoldable pub persist_many :
    List (Draws × HeartbeatRow)
    → List ScheduleHeartbeat
    → Result HeartbeatError (List String × List ScheduleHeartbeat)
persist_many [] table = ok ([], table)
persist_many ((draws, row) ∷ rows) table = elim (persist_heartbeat draws row table) [
  | err problem ↦ err problem
  | ok (id, table') ↦ elim (persist_many rows table') [
    | err problem ↦ err problem
    | ok (ids, table'') ↦ ok (id ∷ ids, table'')
  ]
]

-- The texts of the statuses.
abbrev pub status_name : Status → String
status_name ok_status = "ok"
status_name early = "early"
status_name late = "late"
status_name missed = "missed"
status_name skipped = "skipped"
status_name wrong_anchor = "wrong_anchor"

-- `Completion.canonical`
unfoldable pub canonical : Completion → HeartbeatRow
canonical c = record {
  routine_id = c.routine_id;
  run_id = some c.run_id;
  scheduled_anchor_ts = c.scheduled_anchor_ts;
  fired_at_ts = c.fired_at_ts;
  delta_seconds = c.delta_seconds;
  status = some (status_name c.status);
  as_of_knowledge = some c.as_of_knowledge;
  source = some c.source;
  exit_status = c.exit_status;
  payload_path = if truthy c.payload_path then c.payload_path else none;
  cli = if truthy c.cli then c.cli else none;
  reason = if truthy c.reason then c.reason else none;
  payload_json = put_text "reason" c.reason (
      put_text "cli" c.cli
        (put_text "payload_path" c.payload_path (put_int "exit_status" c.exit_status [])));
}
