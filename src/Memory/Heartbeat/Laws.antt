-- ===== src/Memory/Heartbeat/Laws.antt =====
-- What persist_heartbeat changes, window by window.
use market_memory.Prelude.{
  Result-cases, str_eq, ◌||◌, Bool, true, false, ◌&&◌, Option, none, some, List, [], ◌∷◌, ◌++◌,
  String, if◌then◌else◌, ok, text_in, leb, ◌≡◌, refl, arith, inl, inr, Bool-cases, Option-cases,
  ◌∙◌, ap,
}
use market_memory.Desks.Scheduler.{Key, key_eq}
use market_memory.Desks.Scheduler.Index.Laws.{key_eq_iff}
use market_memory.Memory.Heartbeat.{
  HeartbeatRow, Payload, ScheduleHeartbeat, Draws, rank_of, checked_statuses, payload_of, window,
  window_of, find_window, overwrite, id_in, persist_heartbeat,
}

-- The payload that the table has for a window.
abbrev payload_at : Option ScheduleHeartbeat → Option Payload
payload_at none = none
payload_at (some s) = some s.payload

unfoldable pub seen_at : Key → List ScheduleHeartbeat → Option Payload
seen_at k table = payload_at (find_window k table)

-- Whether a payload replaces what is there.
abbrev pub beats : Payload → Option Payload → Bool
beats p none = true
beats p (some q) = leb (rank_of q.status) (rank_of p.status)

seen_at-overwrite :
    (k l : Key) (p : Payload) (table : List ScheduleHeartbeat) (s : ScheduleHeartbeat)
    → find_window k table ≡ some s
    → seen_at l (overwrite k p table) ≡ (if key_eq k l then some p else seen_at l table)
unfolding seen_at overwrite find_window
seen_at-overwrite k l p [] s' h = ground arith
seen_at-overwrite k l p (s ∷ table) s' h = elim (Bool-cases (key_eq (window_of s) k)) [
  | inl e ↦ ground (arith, key_eq_iff (window_of s) k, key_eq_iff (window_of s) l, key_eq_iff k l)
  | inr e ↦ ground (
    arith,
    key_eq_iff (window_of s) k,
    key_eq_iff (window_of s) l,
    key_eq_iff k l,
    seen_at-overwrite k l p table s' (rw e at h),
  )
]

seen_at-append :
    (l : Key) (s : ScheduleHeartbeat) (table : List ScheduleHeartbeat)
    → find_window (window_of s) table ≡ none
    → seen_at l (table ++ (s ∷ []))
      ≡ (if key_eq (window_of s) l then some s.payload else seen_at l table)
unfolding seen_at find_window
seen_at-append l s [] h = ground (arith, key_eq_iff (window_of s) l)
seen_at-append l s (t ∷ table) h = ground (
  arith,
  key_eq_iff (window_of t) (window_of s),
  key_eq_iff (window_of t) l,
  key_eq_iff (window_of s) l,
  seen_at-append l s table,
)

-- The three ways in which persist_heartbeat returns.
pub data Persisted (id : String) (p : Payload) (row : HeartbeatRow)
    (table table' : List ScheduleHeartbeat) : Type 0 where
  outranked :
      (s : ScheduleHeartbeat)
      → find_window (window row) table ≡ some s
      → leb (rank_of s.payload.status) (rank_of p.status) ≡ false
      → table' ≡ table
      → Persisted id p row table table'
  replaced :
      (s : ScheduleHeartbeat)
      → find_window (window row) table ≡ some s
      → leb (rank_of s.payload.status) (rank_of p.status) ≡ true
      → text_in p.status checked_statuses ≡ true
      → table' ≡ overwrite (window row) p table
      → Persisted id p row table table'
  appended :
      (s : ScheduleHeartbeat)
      → find_window (window row) table ≡ none
      → text_in p.status checked_statuses ≡ true
      → s.id ≡ id
      → window_of s ≡ window row
      → s.payload ≡ p
      → table' ≡ table ++ (s ∷ [])
      → Persisted id p row table table'

id_in-overwrite :
    (x : String) (k : Key) (p : Payload) (table : List ScheduleHeartbeat)
    → id_in x (overwrite k p table) ≡ id_in x table
unfolding id_in overwrite
id_in-overwrite x k p [] = refl
id_in-overwrite x k p (s ∷ table) = ground (arith, id_in-overwrite x k p table)

id_in-append :
    (x : String) (s : ScheduleHeartbeat) (table : List ScheduleHeartbeat)
    → id_in x (table ++ (s ∷ [])) ≡ (id_in x table || str_eq s.id x)
unfolding id_in
id_in-append x s [] = ground arith
id_in-append x s (t ∷ table) = ground (arith, id_in-append x s table)

module _ (draws : Draws) (row : HeartbeatRow) (table : List ScheduleHeartbeat) {id : String}
    {table' : List ScheduleHeartbeat} where
  pub persist_heartbeat-Persisted :
      persist_heartbeat draws row table ≡ ok (id, table')
      → Persisted draws.0 (payload_of draws.1 row) row table table'
  unfolding persist_heartbeat
  persist_heartbeat-Persisted h =
      elim (Bool-cases (text_in (payload_of draws.1 row).status checked_statuses)) [
        | inl c ↦ elim (Option-cases (find_window (window row) table)) [
          | inr (s, f) ↦
              elim (Bool-cases
                (leb (rank_of s.payload.status) (rank_of (payload_of draws.1 row).status))) [
                  | inl b ↦ replaced s f b c (ground arith)
                  | inr b ↦ outranked s f b (ground arith)
                ]
          | inl f ↦ elim (Bool-cases (id_in draws.0 table)) [
            | inl b ↦ absurd (ground arith)
            | inr b ↦
                appended
                  (record {
                    id = draws.0;
                    routine_id = row.routine_id;
                    scheduled_anchor_ts = row.scheduled_anchor_ts;
                    payload = payload_of draws.1 row;
                  })
                  f c refl refl refl (ground arith)
          ]
        ]
        | inr c ↦ elim (Option-cases (find_window (window row) table)) [
          | inr (s, f) ↦
              elim (Bool-cases
                (leb (rank_of s.payload.status) (rank_of (payload_of draws.1 row).status))) [
                  | inl b ↦ absurd (ground arith)
                  | inr b ↦ outranked s f b (ground arith)
                ]
          | inl f ↦ absurd (ground arith)
        ]
      ]

  -- What the table has for a window afterwards.
  pub persist_heartbeat-seen :
      persist_heartbeat draws row table ≡ ok (id, table')
      → (l : Key)
      → seen_at l table' ≡ (
          if beats (payload_of draws.1 row) (seen_at (window row) table) && key_eq (window row) l
          then some (payload_of draws.1 row)
          else seen_at l table)
  unfolding seen_at
  persist_heartbeat-seen h l = elim (persist_heartbeat-Persisted h) [
    | outranked s f b e ↦ rw (e, f, b) refl
    | replaced s f b c e ↦
        rw (e, f, b) (seen_at-overwrite (window row) l (payload_of draws.1 row) table s f)
    | appended s f c i k p e ↦
        rw (e, f)
          (seen_at-append l s table (ap (λ w. find_window w table) k ∙ f)
            ∙ ap (λ w. if key_eq w l then some s.payload else seen_at l table) k
            ∙ ap (λ q. if key_eq (window row) l then some q else seen_at l table) p)
  ]

  -- No id but the one that is drawn is new.
  pub persist_heartbeat-ids :
      persist_heartbeat draws row table ≡ ok (id, table')
      → (x : String) → id_in x table ≡ false
      → str_eq draws.0 x ≡ false
      → id_in x table' ≡ false
  persist_heartbeat-ids h x n d = elim (persist_heartbeat-Persisted h) [
    | outranked s f b e ↦ rw e n
    | replaced s f b c e ↦ rw e (id_in-overwrite x (window row) (payload_of draws.1 row) table ∙ n)
    | appended s f c i k p e ↦ rw (e, id_in-append x s table, n, i, d) refl
  ]

-- A row whose status the table's check names is persisted, if the id that is drawn is not taken.
pub persist_heartbeat-returns :
    (draws : Draws) (row : HeartbeatRow) (table : List ScheduleHeartbeat)
    → text_in (payload_of draws.1 row).status checked_statuses ≡ true
    → id_in draws.0 table ≡ false
    → (w : String × List ScheduleHeartbeat) × (persist_heartbeat draws row table ≡ ok w)
unfolding persist_heartbeat
persist_heartbeat-returns (id, run) row table c i =
    elim (Result-cases (persist_heartbeat (id, run) row table)) [
      | inr (w, q) ↦ (w, q)
      | inl (e, q) ↦ elim (Option-cases (find_window (window row) table)) [
        | inl f ↦ absurd (ground arith)
        | inr (s, f) ↦
            elim (Bool-cases
              (leb (rank_of s.payload.status) (rank_of (payload_of run row).status))) [
                | inl b ↦ absurd (ground arith)
                | inr b ↦ absurd (ground arith)
              ]
      ]
    ]
