-- ===== src/Memory/Heartbeat/Agreement.antt =====
-- The table and the index of the scheduler's sweep say the same of a window, fires that are early
-- aside; what the table does with those.
use market_memory.Prelude.{
  Distinct, ◌<◌, ◌⊎◌, Bool, true, false, ◌&&◌, Option, none, some, List, [], ◌∷◌, map, String,
  if◌then◌else◌, ok, err, text_in, leb, ◌≡◌, refl, arith, inl, inr, Bool-cases, Option-cases,
}
use market_memory.Desks.Scheduler.Routines.{text_of}
use market_memory.Memory.Heartbeat.{status_check, find_window, id_in}
use market_memory.Desks.Scheduler.{
  Key, key_eq, Completion, Status, key_of, rank, ok_status, early, late, missed, skipped,
  wrong_anchor,
}
use market_memory.Desks.Scheduler.Index.{
  Index, get, index_row, index_rows, index_completions, is_better,
}
use market_memory.Desks.Scheduler.Index.Laws.{get-index_row}
use market_memory.Memory.Heartbeat.{
  Payload, ScheduleHeartbeat, Draws, rank_of, payload_of, status_name, canonical, window,
  persist_heartbeat, persist_many, HeartbeatRow, checked_statuses,
}
use market_memory.Memory.Heartbeat.Laws.{
  seen_at, beats, persist_heartbeat-seen, persist_heartbeat-ids, persist_heartbeat-returns,
}

abbrev pub is_early : Status → Bool
is_early early = true
is_early _ = false

-- A payload says what a completion that is not early says.
pub record Says (p : Payload) (c : Completion) : Type 0 where
  pub fired : p.fired_at_ts ≡ c.fired_at_ts
  pub delta : p.delta_seconds ≡ c.delta_seconds
  pub status : p.status ≡ status_name c.status
  pub known : p.as_of_knowledge ≡ c.as_of_knowledge
  pub timely : is_early c.status ≡ false

-- There is a payload exactly where there is a completion, and it says what the completion says.
pub data Agrees : Option Payload → Option Completion → Type 0 where
  nothing : Agrees none none
  both : {p : Payload} {c : Completion} → Says p c → Agrees (some p) (some c)

rank_agrees :
    (s t : Status)
    → is_early s ≡ false
    → is_early t ≡ false
    → leb (rank_of (status_name s)) (rank_of (status_name t)) ≡ leb (rank s) (rank t)
unfolding rank_of
rank_agrees ok_status ok_status h k = refl
rank_agrees early ok_status h k = ground arith
rank_agrees late ok_status h k = ground arith
rank_agrees missed ok_status h k = ground arith
rank_agrees skipped ok_status h k = ground arith
rank_agrees wrong_anchor ok_status h k = ground arith
rank_agrees s t h k = ground arith

named : (s : Status) → text_of (some (status_name s)) "missed" ≡ status_name s
named ok_status = refl
named early = refl
named late = refl
named missed = refl
named skipped = refl
named wrong_anchor = refl

canonical-window : (c : Completion) → window (canonical c) ≡ key_of c
unfolding canonical
canonical-window c = refl

canonical-Says :
    (run : String) (c : Completion)
    → is_early c.status ≡ false
    → Says (payload_of run (canonical c)) c
unfolding payload_of canonical
canonical-Says run c h = record {
  fired = refl;
  delta = refl;
  status = named c.status;
  known = refl;
  timely = h;
}

module _ (run : String) (c : Completion) (h : is_early c.status ≡ false) where
  beats-is_better :
      (o : Option Payload) (q : Option Completion)
      → Agrees o q
      → beats (payload_of run (canonical c)) o ≡ is_better c q
  beats-is_better _ _ nothing = refl
  beats-is_better _ _ (both {p} {c = d} s) =
      rw (s.status, (canonical-Says run c h).status) (rank_agrees d.status c.status s.timely h)

if-Agrees :
    {o : Option Payload} {q : Option Completion} {p : Payload} {c : Completion} (b : Bool)
    → Says p c
    → Agrees o q
    → Agrees (if b then some p else o) (if b then some c else q)
if-Agrees true s a = both s
if-Agrees false s a = a

persist_row-Agrees :
    (d : Draws) (c : Completion) (table : List ScheduleHeartbeat) (out : Index)
    → is_early c.status ≡ false
    → ((k : Key) → Agrees (seen_at k table) (get k out))
    → {id : String} {table' : List ScheduleHeartbeat}
    → persist_heartbeat d (canonical c) table ≡ ok (id, table')
    → (k : Key) → Agrees (seen_at k table') (get k (index_row c out))
unfolding canonical
persist_row-Agrees d c table out h a e k =
    rw
      (
        persist_heartbeat-seen d (canonical c) table e k,
        get-index_row c out k,
        canonical-window c,
        beats-is_better d.1 c h _ _ (a (key_of c)),
      )
      (if-Agrees (is_better c (get (key_of c) out) && key_eq (key_of c) k) (canonical-Says d.1 c h)
        (a k))

-- The completions are recorded in the table, one after the other.
abbrev pub rows_of : List (Draws × Completion) → List (Draws × HeartbeatRow)
rows_of cs = map (λ d. (d.0, canonical d.1)) cs

abbrev pub AllTimely : List (Draws × Completion) → Type 0
AllTimely [] = Unit
AllTimely ((d, c) ∷ cs) = (is_early c.status ≡ false) × AllTimely cs

-- The ids that are drawn for the rows.
abbrev pub ids_of : List (Draws × Completion) → List String
ids_of cs = map (λ d. d.0.0) cs

AllFree : List String → List ScheduleHeartbeat → Type 0
AllFree [] table = Unit
AllFree (x ∷ xs) table = (id_in x table ≡ false) × AllFree xs table

free_in_empty : (xs : List String) → AllFree xs []
unfolding AllFree id_in
free_in_empty [] = tt
free_in_empty (x ∷ xs) = (refl, free_in_empty xs)

free_after :
    (d : Draws) (row : HeartbeatRow) (table : List ScheduleHeartbeat) {id : String}
    {table' : List ScheduleHeartbeat}
    → persist_heartbeat d row table ≡ ok (id, table')
    → (xs : List String) → text_in d.0 xs ≡ false
    → AllFree xs table
    → AllFree xs table'
unfolding AllFree
free_after d row table h [] n f = tt
free_after d row table h (x ∷ xs) n f = (
  persist_heartbeat-ids d row table h x f.0 (ground arith),
  free_after d row table h xs (ground arith) f.1,
)

checked : (s : Status) → is_early s ≡ false → text_in (status_name s) checked_statuses ≡ true
checked ok_status h = refl
checked early h = ground arith
checked late h = refl
checked missed h = refl
checked skipped h = refl
checked wrong_anchor h = refl

persist_row-returns :
    (d : Draws) (c : Completion) (table : List ScheduleHeartbeat)
    → is_early c.status ≡ false
    → id_in d.0 table ≡ false
    → (w : String × List ScheduleHeartbeat) × (persist_heartbeat d (canonical c) table ≡ ok w)
persist_row-returns d c table t f =
    persist_heartbeat-returns d (canonical c) table
      (rw (canonical-Says d.1 c t).status (checked c.status t)) f

-- persist_many returns, and its table says what the index says.
Agreed : List (Draws × Completion) → List ScheduleHeartbeat → Index → Type 0
Agreed cs table out =
    (ids : List String) × (table' : List ScheduleHeartbeat) × (persist_many (rows_of cs) table
      ≡ ok (ids, table'))
    × ((k : Key) → Agrees (seen_at k table') (get k (index_rows (map (λ d. d.1) cs) out)))

persist_rows-Agreed :
    (cs : List (Draws × Completion)) (table : List ScheduleHeartbeat) (out : Index)
    → AllTimely cs
    → Distinct (ids_of cs)
    → AllFree (ids_of cs) table
    → ((k : Key) → Agrees (seen_at k table) (get k out))
    → Agreed cs table out
unfolding persist_many index_rows Agreed AllFree
persist_rows-Agreed [] table out t n f a = ([], table, refl, a)
persist_rows-Agreed ((d, c) ∷ cs) table out t n f a =
    let ((id, next), e) = persist_row-returns d c table t.0 f.0 in
    let (ids, table', h, b) =
      persist_rows-Agreed cs next (index_row c out) t.1 n.1
        (free_after d (canonical c) table e (ids_of cs) n.0 f.1)
        (persist_row-Agrees d c table out t.0 a e) in
    (id ∷ ids, table', rw (e, persist_many, h) refl, b)

-- If completions of which none is early are persisted into an empty table, and the ids that are
-- drawn are distinct, then persist_many returns, and the table that it leaves has a row for a
-- window exactly where the index of the completions has one, and the row has its fire, its delta,
-- its status and its knowledge time.
pub persist_many-Agrees :
    (cs : List (Draws × Completion))
    → AllTimely cs
    → Distinct (ids_of cs)
    → (ids : List String) × (table : List ScheduleHeartbeat) × (persist_many (rows_of cs) []
        ≡ ok (ids, table))
      × ((k : Key) → Agrees (seen_at k table) (get k (index_completions (map (λ d. d.1) cs))))
unfolding index_completions seen_at get find_window Agreed
persist_many-Agrees cs t n =
    persist_rows-Agreed cs [] [] t n (free_in_empty (ids_of cs)) (λ k. nothing)

early_named : (s : Status) → is_early s ≡ true → text_of (some (status_name s)) "missed" ≡ "early"
early_named early h = refl
early_named s h = ground arith

early_status :
    (run : String) (c : Completion)
    → is_early c.status ≡ true
    → (payload_of run (canonical c)).status ≡ "early"
unfolding payload_of canonical
early_status run c h = early_named c.status h

-- A completion that is early is not recorded: if its window has no row, or one of a rank of zero,
-- then persist_heartbeat refuses it, and otherwise the table is left as it is.
pub early_not_recorded :
    (draws : Draws) (c : Completion) (table : List ScheduleHeartbeat)
    → is_early c.status ≡ true
    → (persist_heartbeat draws (canonical c) table ≡ err status_check)
      ⊎ ((s : ScheduleHeartbeat) × (persist_heartbeat draws (canonical c) table ≡ ok (s.id, table))
          × (find_window (key_of c) table ≡ some s)
          × (0 < rank_of s.payload.status))
unfolding persist_heartbeat canonical rank_of
early_not_recorded (id, run) c table h =
    elim (Option-cases (find_window (window (canonical c)) table)) [
      | inl f ↦ inl (rw (f, persist_heartbeat, unchecked) refl)
      | inr (s, f) ↦ elim (Bool-cases (leb (rank_of s.payload.status) 0)) [
        | inl b ↦ inl (rw (f, persist_heartbeat, unchecked, unranked, b) refl)
        | inr b ↦ inr (s, rw (f, persist_heartbeat, unchecked, unranked, b) refl, f, ground arith)
      ]
    ]
  where
    unchecked : text_in (payload_of run (canonical c)).status checked_statuses ≡ false
    unchecked = rw (early_status run c h) refl

    unranked : rank_of (payload_of run (canonical c)).status ≡ 0
    unranked = rw (early_status run c h) refl
