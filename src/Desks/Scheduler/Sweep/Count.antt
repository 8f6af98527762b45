-- ===== src/Desks/Scheduler/Sweep/Count.antt =====
-- How many rows the sweep reports.
use market_memory.Prelude.{
  ℕ, ◌+◌, zero, suc, Bool-cases, true, Option-cases, List, [], ◌∷◌, ◌++◌, ◌≡◌, refl, ap, inl, inr,
  arith,
}
use market_memory.Desks.Scheduler.{
  Clock, Routine, Completion, Catalog, enabled, is_fire, Status, ok_status, early, late, skipped,
  wrong_anchor, missed,
}
use market_memory.Desks.Scheduler.Index.{get}
use market_memory.Desks.Scheduler.Report.{Tally, Seen, empty_tally}
use market_memory.Desks.Scheduler.Anchors.{closed_anchors}
use market_memory.Desks.Scheduler.Sweep.{
  miss_of, Sweep, SweepArgs, is_known, note_fire, note_miss, sweep_anchor, sweep_anchors,
  sweep_routines, sweep_of, miss_sweep,
}

abbrev pub length : {A : Type 0} → List A → ℕ
length [] = zero
length (x ∷ xs) = suc (length xs)

length-added : {A : Type 0} (xs : List A) (x : A) → length (xs ++ x ∷ []) ≡ suc (length xs)
length-added [] x = refl
length-added (y ∷ xs) x = ap suc (length-added xs x)

-- The rows of all six lists of closed windows.
abbrev pub reported : Tally → ℕ
reported t =
    length t.misses
    + length t.known_missed
    + length t.ok
    + length t.early
    + length t.late
    + length t.skipped

reported-note_fire :
    (st : Status) (row : Seen) (t : Tally)
    → is_fire st ≡ true
    → reported (note_fire st row t) ≡ suc (reported t)
unfolding note_fire
reported-note_fire ok_status row t h = omega (arith, length-added t.ok row)
reported-note_fire early row t h = omega (arith, length-added t.early row)
reported-note_fire late row t h = omega (arith, length-added t.late row)
reported-note_fire skipped row t h = omega (arith, length-added t.skipped row)
reported-note_fire wrong_anchor row t h = ground arith
reported-note_fire missed row t h = ground arith

module _ (s : Sweep) where
  reported-note_miss :
      (r : Routine) (anchor : ℕ) (t : Tally) → reported (note_miss s r anchor t) ≡ suc (reported t)
  unfolding note_miss
  reported-note_miss r anchor t = elim (Bool-cases (is_known s r anchor)) [
    | inl h ↦ rw h (omega (arith, length-added t.known_missed (miss_of s r anchor)))
    | inr h ↦ rw h (omega (arith, length-added t.misses (miss_of s r anchor)))
  ]

  reported-sweep_anchor :
      (r : Routine) (anchor : ℕ) (t : Tally)
      → reported (sweep_anchor s r anchor t) ≡ suc (reported t)
  unfolding sweep_anchor
  reported-sweep_anchor r anchor t = elim (Option-cases (get (r.routine_id, anchor) s.indexed)) [
    | inl e ↦ rw (sweep_anchor, e) (reported-note_miss r anchor t)
    | inr (hit, e) ↦ elim (Bool-cases (is_fire hit.status)) [
      | inl f ↦ rw (sweep_anchor, e, f) (reported-note_fire hit.status _ t f)
      | inr f ↦ rw (sweep_anchor, e, f) (reported-note_miss r anchor t)
    ]
  ]

  reported-sweep_anchors :
      (r : Routine) (anchors : List ℕ) (t : Tally)
      → reported (sweep_anchors s r anchors t) ≡ length anchors + reported t
  unfolding sweep_anchors
  reported-sweep_anchors r [] t = omega arith
  reported-sweep_anchors r (a ∷ later) t =
      omega
        (arith, reported-sweep_anchors r later (sweep_anchor s r a t), reported-sweep_anchor r a t)

  -- The closed windows of all routines.
  abbrev pub closed_windows : List Routine → ℕ
  closed_windows [] = 0
  closed_windows (r ∷ rs) =
      length (closed_anchors s.clock r s.now s.lookback_days) + closed_windows rs

  reported-sweep_routines :
      (rs : List Routine) (t : Tally)
      → reported (sweep_routines s rs t) ≡ closed_windows rs + reported t
  unfolding sweep_routines
  reported-sweep_routines [] t = omega arith
  reported-sweep_routines (r ∷ rs) t =
      let anchors = closed_anchors s.clock r s.now s.lookback_days in
      omega (
        arith,
        reported-sweep_routines rs (sweep_anchors s r anchors t),
        reported-sweep_anchors r anchors t,
      )

-- The sweep reports as many rows as the enabled routines have closed windows, counting its misses,
-- known misses and the ok, early, late and skipped fires.
pub every_window_reported :
    (clock : Clock) (c : Catalog) (rows : List Completion) (now : ℕ) (args : SweepArgs)
    → reported (miss_sweep clock c rows now args).tally
      ≡ closed_windows (sweep_of clock c rows now args) (enabled c)
unfolding miss_sweep
every_window_reported clock c rows now args =
    omega (arith, reported-sweep_routines (sweep_of clock c rows now args) (enabled c) empty_tally)
