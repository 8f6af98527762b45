-- ===== src/Desks/Completions/Recorded.antt =====
-- A fire that was recorded is no miss, and a file is never replaced.
use market_memory.Prelude.{
  ◌++◌, ℕ, true, none, some, List, [], ◌∷◌, String, ok, ◌≡◌, ◌≢◌, arith, inl, inr, Option-cases,
  Result-cases, sym, ◌∙◌, ap, eq_iff,
}
use market_memory.Prelude.Members.{Memᴰ}
use market_memory.Prelude.Members.Memᴰ
use market_memory.Prelude.Dict.{lookup, lookup-insert_self}
use market_memory.Desks.Scheduler.{Clock, Completion, Catalog, Routine, key_of, is_fire, Key}
use market_memory.Desks.Scheduler.Fire.{Fire, stamp_fire, local_anchor, stamped}
use market_memory.Desks.Scheduler.Fire.Laws.{
  stamp_fire-IsStamp, stamp_fire-is_fire, stamp_fire-scheduled,
}
use market_memory.Desks.Scheduler.Report.{Miss}
use market_memory.Desks.Scheduler.Sweep.{SweepArgs, miss_sweep}
use market_memory.Desks.Scheduler.Sweep.Answered.{fire_not_missed}
use market_memory.Desks.Scheduler.Routines.{by_id}
use market_memory.Desks.Scheduler.Rows.{completion_from_mapping, fire_of as fire_of_row}
use market_memory.Desks.Scheduler.Rows.Laws.{reload-stamp}
use market_memory.Memory.Heartbeat.{Draws}
use market_memory.Desks.Completions.{
  ◌∷◌, row, Files, completion_filename, place, canonical_row, write_completion,
  load_disk_completions, CliFire, World, record_cli_completion, fire_of,
}
use market_memory.Desks.Completions.Laws.{filename-json, load_disk-mem}

by_id-own :
    (key : String) (rs : List Routine) {r : Routine} → by_id key rs ≡ some r → r.routine_id ≡ key
unfolding by_id
by_id-own key [] h = absurd (ground arith)
by_id-own key (q ∷ rs) h = elim (Option-cases (by_id key rs)) [
  | inl n ↦ ground (arith, eq_iff q.routine_id key)
  | inr (d, n) ↦ by_id-own key rs (n ∙ (rw n at h))
]

-- What a record that returns has done.
record IsRecorded (clock : Clock) (strftime : ℕ → String) (catalog : Catalog)
    (arrive : Files → Files) (f : CliFire) (w : World) (c : Completion) (w' : World) : Type 0 where
  routine : Routine
  known : by_id f.routine_id catalog.routines ≡ some routine
  stamped : stamp_fire clock routine (fire_of strftime f routine) ≡ ok c
  files : w'.files ≡ place (completion_filename strftime c) c arrive w.files

write-place :
    (strftime : ℕ → String) (arrive : Files → Files) (c : Completion) (files : Files)
    {files' : Files}
    → write_completion strftime arrive c files ≡ ok files'
    → files' ≡ place (completion_filename strftime c) c arrive files
unfolding write_completion
write-place strftime arrive c files h = ground arith

record-IsRecorded :
    (clock : Clock) (strftime : ℕ → String) (catalog : Catalog) (arrive : Files → Files)
    (draws : Draws) (f : CliFire) (w w' : World) (c : Completion)
    → record_cli_completion clock strftime catalog arrive draws f w ≡ ok (c, w')
    → IsRecorded clock strftime catalog arrive f w c w'
unfolding record_cli_completion
record-IsRecorded clock strftime catalog arrive draws f w w' c h =
    elim (Option-cases (by_id f.routine_id catalog.routines)) [
      | inl n ↦ absurd (ground arith)
      | inr (r, n) ↦ elim (Result-cases (stamp_fire clock r (fire_of strftime f r))) [
        | inl (e, s) ↦ absurd (ground arith)
        | inr (d, s) ↦ elim (Result-cases (write_completion strftime arrive d w.files)) [
          | inl (e, p) ↦ absurd (ground arith)
          | inr (files, p) ↦
              let same : d ≡ c = ground arith in
              let left : files ≡ w'.files = ground arith in
              record {
                routine = r;
                known = n;
                stamped = rw (← same) s;
                files =
                    sym left
                    ∙ write-place strftime arrive d w.files p
                    ∙ ap (λ x. place (completion_filename strftime x) x arrive w.files) same;
              }
        ]
      ]
    ]

pair_key : {a b : String} {m n : ℕ} → a ≡ b → m ≡ n → ◌≡◌ {A = Key} (a, m) (b, n)
pair_key p q = λ i. (p i, q i)

-- The row of a stamped completion loads as one of the same window.
reloaded :
    (clock : Clock) (strftime : ℕ → String) (catalog : Catalog) (r : Routine) (f : Fire)
    (c : Completion)
    → stamp_fire clock r f ≡ ok c
    → by_id c.routine_id catalog.routines ≡ some r
    → (d : Completion) × (completion_from_mapping clock strftime (some catalog) (canonical_row c)
        ≡ ok d)
      × (key_of d ≡ key_of c)
      × (is_fire d.status ≡ true)
unfolding canonical_row fire_of_row
reloaded clock strftime catalog r f c h k =
    let i = stamp_fire-IsStamp clock r f c h in
    let row = canonical_row c in
    let again = fire_of_row strftime row f.fired_at in
    let made = stamp_fire-scheduled clock r again i.scheduled in
    (
      stamped r again (local_anchor clock r (clock.date_of r.timezone f.fired_at)),
      reload-stamp clock strftime catalog r row f.fired_at _ k i.fired_at made,
      pair_key (sym i.own_id) (sym i.at_day),
      stamp_fire-is_fire clock r again _ made,
    )

-- If record_cli_completion returns, there was no file of the completion's name before, nor when
-- the new one was put there, and a later sweep reads the files of that directory after any other
-- completions, then no miss that the sweep reports is of the completion's routine and anchor.
pub recorded_not_missed :
    (clock : Clock) (strftime : ℕ → String) (catalog : Catalog) (arrive : Files → Files)
    (draws : Draws) (f : CliFire) (w w' : World) (c : Completion) (now : ℕ) (args : SweepArgs)
    (others : List Completion) (m : Miss)
    → record_cli_completion clock strftime catalog arrive draws f w ≡ ok (c, w')
    → lookup (completion_filename strftime c) w.files ≡ none
    → lookup (completion_filename strftime c) (arrive w.files) ≡ none
    → Memᴰ m
        (miss_sweep clock catalog
          (others ++ load_disk_completions clock strftime (some catalog) w'.files)
          now
          args).tally.misses
    → (m.routine_id, m.scheduled_anchor_ts) ≢ key_of c
unfolding place
recorded_not_missed clock strftime catalog arrive draws f w w' c now args others m h n n' k =
    let i = record-IsRecorded clock strftime catalog arrive draws f w w' c h in
    let name = completion_filename strftime c in
    let own =
      (stamp_fire-IsStamp clock i.routine _ c i.stamped).own_id
      ∙ by_id-own f.routine_id catalog.routines i.known in
    let (d, l, same, fired) =
      reloaded clock strftime catalog i.routine _ c i.stamped
        (ap (λ x. by_id x catalog.routines) own ∙ i.known) in
    let found : lookup name w'.files ≡ some (row (canonical_row c)) =
      ap (lookup name) i.files ∙ rw (n, n', place) (lookup-insert_self name _ (arrive w.files)) in
    let read =
      load_disk-mem clock strftime (some catalog) w'.files name (filename-json strftime c) found
        l in
    rw same at
      (fire_not_missed clock catalog _ now args d m (Memᴰ.append_right others read) fired k)
