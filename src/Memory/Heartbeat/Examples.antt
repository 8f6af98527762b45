-- ===== src/Memory/Heartbeat/Examples.antt =====
-- packages/memory/src/mm_memory/heartbeat_repository.py on the completions of a day.
use market_memory.Prelude.{List, [], ◌∷◌, ◌≡◌, ◌<◌, ◌⊎◌, refl, some, ok, err}
use market_memory.Prelude.Dict.{insert}
use market_memory.Desks.Scheduler.{Key, Completion, early, late, key_of}
use market_memory.Desks.Scheduler.Index.{get, index_completions}
use market_memory.Desks.Scheduler.Samples.{stamped_monday}
use market_memory.Memory.Heartbeat.{
  String, Draws, ScheduleHeartbeat, persist_heartbeat, persist_many, canonical, status_check,
  find_window, rank_of, payload_of, nested_of, overwrite, id_in,
}
use market_memory.Memory.Heartbeat.Laws.{seen_at}
use market_memory.Memory.Heartbeat.Agreement.{
  persist_many-Agrees, rows_of, early_not_recorded, Agrees,
}

abbrev late_row : Completion
late_row = record stamped_monday { status = late; run_id = "run-2" }

-- The better row of the window comes second.
abbrev two_rows : List (Draws × Completion)
two_rows = (("id-1", "x"), late_row) ∷ (("id-2", "y"), stamped_monday) ∷ []

abbrev monday_table : List ScheduleHeartbeat
monday_table =
    record {
      id = "id-1";
      routine_id = stamped_monday.routine_id;
      scheduled_anchor_ts = stamped_monday.scheduled_anchor_ts;
      payload = payload_of "y" (canonical stamped_monday);
    }
    ∷ []

persist_two : persist_many (rows_of two_rows) [] ≡ ok ("id-1" ∷ "id-1" ∷ [], monday_table)
unfolding persist_many persist_heartbeat find_window payload_of canonical nested_of overwrite id_in
    rank_of insert
persist_two = refl

persist_many-Agrees_example :
    (ids : List String) × (table : List ScheduleHeartbeat) × (persist_many (rows_of two_rows) []
      ≡ ok (ids, table))
    × ((k : Key)
        → Agrees (seen_at k table) (get k (index_completions (late_row ∷ stamped_monday ∷ []))))
persist_many-Agrees_example = persist_many-Agrees two_rows (refl, (refl, tt)) (refl, (refl, tt))

abbrev early_row : Completion
early_row = record stamped_monday { status = early }

early_not_recorded_example :
    (persist_heartbeat ("id-3", "z") (canonical early_row) monday_table ≡ err status_check)
    ⊎ ((s : ScheduleHeartbeat) × (persist_heartbeat ("id-3", "z") (canonical early_row) monday_table
          ≡ ok (s.id, monday_table))
        × (find_window (key_of early_row) monday_table ≡ some s)
        × (0 < rank_of s.payload.status))
early_not_recorded_example = early_not_recorded ("id-3", "z") early_row monday_table refl
