-- ===== src/Desks/Scheduler/Rows/Laws.antt =====
-- What a loaded completion is.
use mathlib.Core.Path.{subst}
use market_memory.Prelude.{
  Bool-cases, ℕ, Option-cases, Result-cases, true, false, Option, none, some, String, ◌≡◌, ◌≢◌,
  refl, sym, ◌∙◌, arith, inl, inr, ok, str_eq,
}
use market_memory.Desks.Scheduler.{
  ◌∷◌, [], List, Clock, Routine, Completion, Catalog, Status, wrong_anchor,
}
use market_memory.Desks.Scheduler.{Key, is_fire}
use market_memory.Desks.Scheduler.Sweep.{SweepArgs, wrong_rows, is_wrong, miss_sweep}
use market_memory.Desks.Scheduler.Fire.{classify_delta, stamp_fire}
use market_memory.Desks.Scheduler.Fire.Laws.{stamp_fire-is_fire, IsStamp, stamp_fire-IsStamp}
use market_memory.Desks.Scheduler.Routines.{by_id, text_of}
use market_memory.Desks.Scheduler.Rows.{
  unstamped, load_completions, late_of, classified_of, CompletionRow, status_of, fire_of,
  row_completion, status_text, stamp_row, load_row, completion_from_mapping, routine_of,
}

stamp_row-stamped :
    (clock : Clock) (strftime : ℕ → String) (r : Routine) (row : CompletionRow) (t : ℕ)
    (c : Completion)
    → stamp_row clock strftime r row t ≡ ok c
    → stamp_fire clock r (fire_of strftime row t) ≡ ok c
unfolding stamp_row
stamp_row-stamped clock strftime r row t c h =
    elim (Result-cases (stamp_fire clock r (fire_of strftime row t))) [
      | inl (p, e) ↦ ground arith
      | inr (d, e) ↦ ground arith
    ]

module _ (clock : Clock) (strftime : ℕ → String) where
  load_row-completion_from_mapping :
      (catalog : Option Catalog) (row : CompletionRow)
      → completion_from_mapping clock strftime catalog row
        ≡ load_row clock strftime row.fired_at_ts (routine_of row.routine_id catalog) row
  unfolding completion_from_mapping
  load_row-completion_from_mapping catalog row = refl

  -- If the catalog has a routine for a row, and the row has a fire, then the completion that
  -- completion_from_mapping makes of it says what stamp_fire says of that fire, whatever status,
  -- anchor and delta the row holds.
  pub reloaded-IsStamp :
      (catalog : Catalog) (r : Routine) (row : CompletionRow) (t : ℕ) (c : Completion)
      → by_id row.routine_id catalog.routines ≡ some r
      → row.fired_at_ts ≡ some t
      → completion_from_mapping clock strftime (some catalog) row ≡ ok c
      → IsStamp clock r (fire_of strftime row t) c
  unfolding routine_of
  reloaded-IsStamp catalog r row t c e f h =
      let g : load_row clock strftime (some t) (some r) row ≡ ok c =
        subst (λ o. load_row clock strftime o (some r) row ≡ ok c) f
          (subst (λ o. load_row clock strftime row.fired_at_ts o row ≡ ok c) e
            (sym (load_row-completion_from_mapping (some catalog) row) ∙ h)) in
      stamp_fire-IsStamp clock r (fire_of strftime row t) c
        (stamp_row-stamped clock strftime r row t c g)

status_of-wrong : (t : String) → status_of t ≡ some wrong_anchor → str_eq t "wrong_anchor" ≡ true
unfolding status_of
status_of-wrong t h = ground arith

classified-ne :
    (fired : Option ℕ) (anchor late_after : ℕ)
    → classified_of fired anchor late_after ≢ wrong_anchor
unfolding classified_of classify_delta
classified-ne none anchor late_after h = ground arith
classified-ne (some t) anchor late_after h = ground arith

status_text-ne :
    (fired : Option ℕ) (raw : Option String) (classified : Status)
    → classified ≢ wrong_anchor
    → str_eq (text_of raw "") "wrong_anchor" ≡ false
    → status_text fired raw classified ≢ some wrong_anchor
unfolding status_text
status_text-ne fired raw classified n h e = let w = status_of-wrong (text_of raw "") in ground arith

row_completion-ne :
    (strftime : ℕ → String) (routine : Option Routine) (row : CompletionRow) (anchor : ℕ)
    (c : Completion)
    → str_eq (text_of row.status "") "wrong_anchor" ≡ false
    → row_completion strftime routine row anchor ≡ ok c
    → c.status ≢ wrong_anchor
unfolding row_completion
row_completion-ne strftime routine row anchor c n h e =
    let classified = classified_of row.fired_at_ts anchor (late_of routine) in
    let no = status_text-ne row.fired_at_ts row.status classified (classified-ne _ anchor _) n in
    elim (Option-cases (status_text row.fired_at_ts row.status classified)) [
      | inl a ↦ ground arith
      | inr (s, a) ↦ ground arith
    ]

unstamped-ne :
    (strftime : ℕ → String) (routine : Option Routine) (row : CompletionRow) (c : Completion)
    → unstamped strftime routine row ≡ ok c
    → c.status ≢ wrong_anchor
unfolding unstamped
unstamped-ne strftime routine row c h =
    elim (Bool-cases (str_eq (text_of row.status "") "wrong_anchor")) [
      | inl w ↦ ground arith
      | inr n ↦ elim (Option-cases row.scheduled_anchor_ts) [
        | inl e ↦ ground arith
        | inr (anchor, e) ↦ row_completion-ne strftime routine row anchor c n (ground arith)
      ]
    ]

module _ (clock : Clock) (strftime : ℕ → String) where
  is_wrong-ne : (st : Status) → st ≢ wrong_anchor → is_wrong st ≡ false
  unfolding is_wrong
  is_wrong-ne st n = ground arith

  fire-ne : (st : Status) → is_fire st ≡ true → st ≢ wrong_anchor
  fire-ne st h e = ground arith

  wrong_rows-cons :
      (seen : List Key) (c : Completion) (cs : List Completion)
      → c.status ≢ wrong_anchor
      → wrong_rows seen (c ∷ cs) ≡ wrong_rows seen cs
  unfolding wrong_rows
  wrong_rows-cons seen c cs n =
      let w : is_wrong c.status ≡ false = is_wrong-ne c.status n in rw (w) refl

  load_row-ne :
      (fired : Option ℕ) (routine : Option Routine) (row : CompletionRow) (c : Completion)
      → load_row clock strftime fired routine row ≡ ok c
      → c.status ≢ wrong_anchor
  load_row-ne none routine row c h = unstamped-ne strftime routine row c h
  load_row-ne (some t) none row c h = unstamped-ne strftime none row c h
  load_row-ne (some t) (some r) row c h = fire-ne c.status (
      stamp_fire-is_fire clock r (fire_of strftime row t) c
        (stamp_row-stamped clock strftime r row t c h))

  loaded-ne :
      (catalog : Option Catalog) (row : CompletionRow) (c : Completion)
      → completion_from_mapping clock strftime catalog row ≡ ok c
      → c.status ≢ wrong_anchor
  loaded-ne catalog row c h =
      load_row-ne row.fired_at_ts (routine_of row.routine_id catalog) row c
        (sym (load_row-completion_from_mapping clock strftime catalog row) ∙ h)

  loaded_wrong_rows :
      (catalog : Option Catalog) (rows : List CompletionRow) (cs : List Completion)
      (seen : List Key)
      → load_completions clock strftime catalog rows ≡ ok cs
      → wrong_rows seen cs ≡ []
  unfolding load_completions wrong_rows
  loaded_wrong_rows catalog [] cs seen h =
      let q : [] ≡ cs = ground arith in subst (λ ds. wrong_rows seen ds ≡ []) q refl
  loaded_wrong_rows catalog (row ∷ rows) cs seen h =
      elim (Result-cases (completion_from_mapping clock strftime catalog row)) [
        | inl (p, e) ↦ ground arith
        | inr (c, e) ↦ elim (Result-cases (load_completions clock strftime catalog rows)) [
          | inl (p, f) ↦ ground arith
          | inr (ds, f) ↦
              let q : c ∷ ds ≡ cs = ground arith in
              subst (λ es. wrong_rows seen es ≡ []) q
                (wrong_rows-cons seen c ds (loaded-ne catalog row c e)
                  ∙ loaded_wrong_rows catalog rows ds seen f)
        ]
      ]

  -- If completions are loaded from rows, then a sweep over them reports no wrong anchor.
  pub loaded_rows_no_wrong_anchor :
      (catalog : Option Catalog) (rows : List CompletionRow) (cs : List Completion)
      → load_completions clock strftime catalog rows ≡ ok cs
      → (c : Catalog) (now : ℕ) (args : SweepArgs)
      → (miss_sweep clock c cs now args).wrong_anchor ≡ []
  unfolding miss_sweep
  loaded_rows_no_wrong_anchor catalog rows cs h c now args = loaded_wrong_rows catalog rows cs [] h

stamp_row-ok :
    (clock : Clock) (strftime : ℕ → String) (r : Routine) (row : CompletionRow) (t : ℕ)
    (c : Completion)
    → stamp_fire clock r (fire_of strftime row t) ≡ ok c
    → stamp_row clock strftime r row t ≡ ok c
unfolding stamp_row
stamp_row-ok clock strftime r row t c h = rw (h, stamp_row) refl

-- A row with a fire, of a routine that the catalog has, loads as the stamp of the fire.
pub reload-stamp :
    (clock : Clock) (strftime : ℕ → String) (catalog : Catalog) (r : Routine) (row : CompletionRow)
    (t : ℕ) (c : Completion)
    → by_id row.routine_id catalog.routines ≡ some r
    → row.fired_at_ts ≡ some t
    → stamp_fire clock r (fire_of strftime row t) ≡ ok c
    → completion_from_mapping clock strftime (some catalog) row ≡ ok c
unfolding routine_of
reload-stamp clock strftime catalog r row t c e f h =
    load_row-completion_from_mapping clock strftime (some catalog) row
    ∙ subst (λ o. load_row clock strftime row.fired_at_ts o row ≡ ok c) (sym e)
        (subst (λ o. load_row clock strftime o (some r) row ≡ ok c) (sym f)
          (stamp_row-ok clock strftime r row t c h))
