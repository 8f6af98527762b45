-- ===== src/Desks/Scheduler/Baseline/Laws.antt =====
-- What a baseline keeps, and the sweep that reads it.
use market_memory.Prelude.{
  ℕ, ◌≢◌, true, false, List, [], ◌∷◌, ◌||◌, ◌≡◌, refl, sym, ap, ◌∙◌, inl, inr, arith,
}
use market_memory.Prelude.Members.{Memᴰ}
use market_memory.Prelude.Members.Memᴰ
use market_memory.Desks.Scheduler.{Clock, Completion, Catalog, Routine, Key, key_eq}
use market_memory.Desks.Scheduler.Anchors.{closed_anchors}
use market_memory.Desks.Scheduler.Index.{Windows, set, key_in}
use market_memory.Desks.Scheduler.Index.Laws.{key_eq_iff}
use market_memory.Desks.Scheduler.Report.{Miss}
use market_memory.Desks.Scheduler.Sweep.{Sweep, SweepArgs, sweep_of, miss_sweep, miss_of, is_known}
use market_memory.Desks.Scheduler.Sweep.Laws.{IsMissed, mem-misses}
use market_memory.Desks.Scheduler.Baseline.{Window, key_of_miss, merge_windows, keys_of}

pub key_in-set :
    (l k : Key) (w : Window) (d : Windows Window)
    → key_in l (keys_of (set k w d)) ≡ (key_eq k l || key_in l (keys_of d))
unfolding key_in keys_of set
key_in-set l k w [] = refl
key_in-set l k w ((m, v) ∷ rest) =
    ground (arith, key_eq_iff k l, key_eq_iff m k, key_eq_iff m l, key_in-set l k w rest)

key_in-merge :
    (k : Key) (d : Windows Window) (ms : List Miss)
    → key_in k (keys_of d) ≡ true
    → key_in k (keys_of (merge_windows d ms)) ≡ true
unfolding merge_windows
key_in-merge k d [] h = h
key_in-merge k d (m ∷ ms) h =
    key_in-merge k (set (key_of_miss m) _ d) ms
      (rw (key_in-set k (key_of_miss m) _ d) (ground arith))

mem_in-merge :
    (m : Miss) (d : Windows Window) (ms : List Miss)
    → Memᴰ m ms
    → key_in (key_of_miss m) (keys_of (merge_windows d ms)) ≡ true
unfolding merge_windows
mem_in-merge m d [] k = absurd (Memᴰ.not-nil k)
mem_in-merge m d (n ∷ ms) k = elim (Memᴰ.cases_cons k) [
  | inr t ↦ mem_in-merge m (set (key_of_miss n) _ d) ms t
  | inl e ↦
      let q = (key_eq_iff (key_of_miss n) (key_of_miss m)).1 (ap key_of_miss (sym e)) in
      key_in-merge (key_of_miss m) (set (key_of_miss n) _ d) ms
        (rw (key_in-set (key_of_miss m) (key_of_miss n) _ d) (ground arith))
]

true-ne_false : true ≢ false
true-ne_false h = ground arith

no_member : {A : Type 0} (xs : List A) → ((x : A) → Memᴰ x xs → ⊥) → xs ≡ []
no_member [] h = refl
no_member (x ∷ xs) h = absurd (h x (Memᴰ.head refl))

abbrev pub known_by : Windows Window → SweepArgs → SweepArgs
known_by d args = record args { known_missed = keys_of d }

module _ (clock : Clock) (c : Catalog) (rows : List Completion) (now : ℕ) (args : SweepArgs) where
  sweep_with : Windows Window → Sweep
  sweep_with d = sweep_of clock c rows now (known_by d args)

  -- A window that the merged baseline does not know is not known to the earlier one either.
  unknown-merge :
      (d : Windows Window) (ms : List Miss) (r : Routine) (anchor : ℕ)
      → is_known (sweep_with (merge_windows d ms)) r anchor ≡ false
      → (is_known (sweep_with d) r anchor ≡ false)
        × (key_in (r.routine_id, anchor) (keys_of (merge_windows d ms)) ≡ false)
  unfolding is_known sweep_of sweep_with
  unknown-merge d ms r anchor h = ground (arith, key_in-merge (r.routine_id, anchor) d ms)

  same_miss :
      (d e : Windows Window) (r : Routine) (anchor : ℕ)
      → is_known (sweep_with d) r anchor ≡ false
      → is_known (sweep_with e) r anchor ≡ false
      → miss_of (sweep_with d) r anchor ≡ miss_of (sweep_with e) r anchor
  unfolding miss_of
  same_miss d e r anchor h k = rw (h, k) refl

  -- If the misses of a sweep are merged into the known windows that it was given, then the same
  -- sweep with the merged windows reports no miss.
  pub baselined_is_quiet :
      (existing : Windows Window)
      → let first = miss_sweep clock c rows now (known_by existing args) in
        let merged = merge_windows existing first.tally.misses in
        (miss_sweep clock c rows now (known_by merged args)).tally.misses ≡ []
  unfolding sweep_of sweep_with miss_of
  baselined_is_quiet existing =
      let ms = (miss_sweep clock c rows now (known_by existing args)).tally.misses in
      let merged = merge_windows existing ms in
      no_member _ (λ m k.
        let (r, n, i) = (mem-misses clock c rows now (known_by merged args) m).0 k in
        let (u, fresh) = unknown-merge existing ms r i.anchor i.unknown in
        let old : IsMissed (sweep_with existing) r
            (closed_anchors clock r now (sweep_with existing).lookback_days) m =
          record {
            anchor = i.anchor;
            closed = i.closed;
            unseen = i.unseen;
            unknown = u;
            row = i.row ∙ same_miss merged existing r i.anchor i.unknown u;
          } in
        let here = (mem-misses clock c rows now (known_by existing args) m).1 (r, n, old) in
        let known = mem_in-merge m existing ms here in let e = ap key_of_miss i.row in ground arith)
