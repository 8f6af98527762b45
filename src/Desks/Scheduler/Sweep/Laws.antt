-- ===== src/Desks/Scheduler/Sweep/Laws.antt =====
-- Which windows the sweep reports.
use mathlib.Core.Path.{subst}
use market_memory.Prelude.{
  sym, ℕ, Bool, Bool-cases, true, false, Option, Option-cases, none, some, List, [], ◌∷◌, ◌++◌,
  ◌&&◌, not, ◌≡◌, refl, ◌⊎◌, inl, inr, ◌↔◌, arith,
}
use market_memory.Prelude.Members.{Memᴰ, added_cases, added_last}
use market_memory.Prelude.Members.Memᴰ
use market_memory.Desks.Scheduler.{Clock, Routine, Completion, Catalog, is_fire, enabled}
use market_memory.Desks.Scheduler.Index.{get}
use market_memory.Desks.Scheduler.Report.{empty_tally, Miss, Tally}
use market_memory.Desks.Scheduler.Sweep.{
  SweepArgs, closed_anchors, sweep_of, sweep_routines, sweep_anchors, miss_sweep, Sweep, is_known,
  miss_of, sweep_anchor,
}

-- The index has a fire for the window.
abbrev pub has_fire : Option Completion → Bool
has_fire none = false
has_fire (some hit) = is_fire hit.status

abbrev pub silent : Sweep → Routine → ℕ → Bool
silent s r anchor = not (has_fire (get (r.routine_id, anchor) s.indexed))

add_if : Bool → Miss → List Miss → List Miss
add_if true m ms = ms ++ m ∷ []
add_if false m ms = ms

mem-add_if :
    (c : Bool) (m x : Miss) (ms : List Miss)
    → Memᴰ x (add_if c m ms) ↔ (Memᴰ x ms ⊎ ((c ≡ true) × (x ≡ m)))
unfolding add_if
mem-add_if true m x ms = (
  λ k. elim (added_cases ms k) [ inl a ↦ inl a | inr e ↦ inr (refl, e) ],
  λ k. elim k [ inl a ↦ Memᴰ.append_left _ a | inr (_, e) ↦ added_last ms e ],
)
mem-add_if false m x ms = (inl, λ k. elim k [ inl a ↦ a | inr (h, _) ↦ ground arith ])

module _ (s : Sweep) (r : Routine) where
  misses-sweep_anchor :
      (anchor : ℕ) (t : Tally)
      → (sweep_anchor s r anchor t).misses
        ≡ add_if (silent s r anchor && not (is_known s r anchor)) (miss_of s r anchor) t.misses
  unfolding sweep_anchor add_if
  misses-sweep_anchor anchor t = elim (Option-cases (get (r.routine_id, anchor) s.indexed)) [
    | inl e ↦ elim (Bool-cases (is_known s r anchor)) [
      | inl k ↦ rw (sweep_anchor, e, k) refl
      | inr k ↦ rw (sweep_anchor, e, k) refl
    ]
    | inr (hit, e) ↦ rw (sweep_anchor, e) (ground arith)
  ]

-- What a reported miss is: a closed anchor of the routine, without a fire, that is not known.
pub record IsMissed (s : Sweep) (r : Routine) (anchors : List ℕ) (m : Miss) : Type 0 where
  pub anchor : ℕ
  pub closed : Memᴰ anchor anchors
  pub unseen : silent s r anchor ≡ true
  pub unknown : is_known s r anchor ≡ false
  pub row : m ≡ miss_of s r anchor

module _ (s : Sweep) (m : Miss) where
  mem-sweep_anchor :
      (r : Routine) (anchor : ℕ) (t : Tally)
      → Memᴰ m (sweep_anchor s r anchor t).misses ↔ (Memᴰ m t.misses ⊎ IsMissed s r (anchor ∷ []) m)
  mem-sweep_anchor r anchor t =
      let c = silent s r anchor && not (is_known s r anchor) in
      let e = mem-add_if c (miss_of s r anchor) m t.misses in
      rw (misses-sweep_anchor s r anchor t) (
        λ k. elim (e.0 k) [
          | inl a ↦ inl a
          | inr (h, f) ↦ inr (record {
            anchor = anchor;
            closed = Memᴰ.head refl;
            unseen = ground arith;
            unknown = ground arith;
            row = f;
          })
        ],
        λ k. elim k [
          | inl a ↦ e.1 (inl a)
          | inr i ↦
              let f = Memᴰ.eq_of_singleton i.closed in
              let u : silent s r anchor ≡ true = rw (sym f) i.unseen in
              let n : is_known s r anchor ≡ false = rw (sym f) i.unknown in
              e.1 (inr (ground arith, rw (sym f) i.row))
        ],
      )

  weaken :
      (r : Routine) {some_ts all_ts : List ℕ}
      → ((a : ℕ) → Memᴰ a some_ts → Memᴰ a all_ts)
      → IsMissed s r some_ts m
      → IsMissed s r all_ts m
  weaken r f i = record {
    anchor = i.anchor;
    closed = f i.anchor i.closed;
    unseen = i.unseen;
    unknown = i.unknown;
    row = i.row;
  }

  mem-sweep_anchors :
      (r : Routine) (anchors : List ℕ) (t : Tally)
      → Memᴰ m (sweep_anchors s r anchors t).misses ↔ (Memᴰ m t.misses ⊎ IsMissed s r anchors m)
  unfolding sweep_anchors
  mem-sweep_anchors r [] t =
      (inl, λ k. elim k [ inl a ↦ a | inr i ↦ absurd (Memᴰ.not-nil i.closed) ])
  mem-sweep_anchors r (a ∷ later) t =
      let here = mem-sweep_anchor r a t in
      let rest = mem-sweep_anchors r later (sweep_anchor s r a t) in
      (
        λ k. elim (rest.0 k) [
          | inr i ↦ inr (weaken r (λ b. Memᴰ.tail) i)
          | inl n ↦ elim (here.0 n) [
            | inl o ↦ inl o
            | inr i ↦ inr (weaken r (λ b n. Memᴰ.head (Memᴰ.eq_of_singleton n)) i)
          ]
        ],
        λ k. elim k [
          | inl o ↦ rest.1 (inl (here.1 (inl o)))
          | inr i ↦ elim (Memᴰ.cases_cons i.closed) [
            | inl e ↦ rest.1 (
                inl (
                  here.1 (
                    inr (record {
                      anchor = i.anchor;
                      closed = Memᴰ.head e;
                      unseen = i.unseen;
                      unknown = i.unknown;
                      row = i.row;
                    }))))
            | inr n ↦ rest.1 (
                inr (record {
                  anchor = i.anchor;
                  closed = n;
                  unseen = i.unseen;
                  unknown = i.unknown;
                  row = i.row;
                }))
          ]
        ],
      )

  mem-sweep_routines :
      (rs : List Routine) (t : Tally)
      → Memᴰ m (sweep_routines s rs t).misses ↔ (
          Memᴰ m t.misses
          ⊎ ((r : Routine) × Memᴰ r rs
              × IsMissed s r (closed_anchors s.clock r s.now s.lookback_days) m))
  unfolding sweep_routines
  mem-sweep_routines [] t =
      (inl, λ k. elim k [ inl a ↦ a | inr (_, n, _) ↦ absurd (Memᴰ.not-nil n) ])
  mem-sweep_routines (r ∷ rs) t =
      let anchors = closed_anchors s.clock r s.now s.lookback_days in
      let here = mem-sweep_anchors r anchors t in
      let rest = mem-sweep_routines rs (sweep_anchors s r anchors t) in
      (
        λ k. elim (rest.0 k) [
          | inr (q, n, i) ↦ inr (q, Memᴰ.tail n, i)
          | inl n ↦ elim (here.0 n) [ inl o ↦ inl o | inr i ↦ inr (r, Memᴰ.head refl, i) ]
        ],
        λ k. elim k [
          | inl o ↦ rest.1 (inl (here.1 (inl o)))
          | inr (q, n, i) ↦ elim (Memᴰ.cases_cons n) [
            | inr o ↦ rest.1 (inr (q, o, i))
            | inl e ↦ rest.1 (
                inl (
                  here.1 (
                    inr (
                      subst
                        (λ (p : Routine).
                          IsMissed s p (closed_anchors s.clock p s.now s.lookback_days) m)
                        e i))))
          ]
        ],
      )

-- A row is among the misses of miss_sweep exactly when it is the row of a closed anchor of an
-- enabled routine, for which the index of the completions has no fire, and which is neither in
-- known_missed nor before the baseline's day.
pub mem-misses :
    (clock : Clock) (c : Catalog) (rows : List Completion) (now : ℕ) (args : SweepArgs) (m : Miss)
    → let s = sweep_of clock c rows now args in
      Memᴰ m (miss_sweep clock c rows now args).tally.misses ↔ (
        (r : Routine) × Memᴰ r (enabled c)
        × IsMissed s r (closed_anchors clock r now s.lookback_days) m)
unfolding miss_sweep sweep_of
mem-misses clock c rows now args m =
    let e = mem-sweep_routines (sweep_of clock c rows now args) m (enabled c) empty_tally in
    (λ k. elim (e.0 k) [ inl n ↦ absurd (Memᴰ.not-nil n) | inr i ↦ i ], λ i. e.1 (inr i))
