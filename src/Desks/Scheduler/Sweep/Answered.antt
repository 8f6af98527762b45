-- ===== src/Desks/Scheduler/Sweep/Answered.antt =====
-- How stamps and baselines act on the next sweep.
use market_memory.Prelude.{ℕ, ◌≤◌, true, List, ◌≡◌, ◌≢◌, sym, ap, ◌∙◌, arith, ok}
use market_memory.Prelude.Members.{Memᴰ}
use market_memory.Desks.Scheduler.{
  Clock, Routine, Completion, Catalog, key_of, is_fire, rank, Status,
}
use market_memory.Desks.Scheduler.Index.{get, index_completions}
use market_memory.Desks.Scheduler.Index.Laws.{index_completions-ranked}
use market_memory.Desks.Scheduler.Report.{Miss}
use market_memory.Desks.Scheduler.Fire.{Fire, stamp_fire, local_anchor}
use market_memory.Desks.Scheduler.Fire.Laws.{stamp_fire-IsStamp, stamp_fire-is_fire}
use market_memory.Desks.Scheduler.Sweep.{SweepArgs, sweep_of, miss_sweep, miss_of}
use market_memory.Desks.Scheduler.Sweep.Laws.{has_fire, mem-misses}

is_fire-up : (a b : Status) → rank a ≤ rank b → is_fire a ≡ true → is_fire b ≡ true
is_fire-up a b h f = ground arith

-- The index has a fire for the window of any completion that is one of a fire.
has_fire-index :
    (rows : List Completion) (c : Completion)
    → Memᴰ c rows
    → is_fire c.status ≡ true
    → has_fire (get (key_of c) (index_completions rows)) ≡ true
has_fire-index rows c m f =
    let (d, e, le) = index_completions-ranked rows c m in rw e (is_fire-up c.status d.status le f)

-- If a completion is among the rows and is one of a fire, then no miss that the sweep reports is of
-- its routine and anchor.
pub fire_not_missed :
    (clock : Clock) (c : Catalog) (rows : List Completion) (now : ℕ) (args : SweepArgs)
    (row : Completion) (m : Miss)
    → Memᴰ row rows
    → is_fire row.status ≡ true
    → Memᴰ m (miss_sweep clock c rows now args).tally.misses
    → (m.routine_id, m.scheduled_anchor_ts) ≢ key_of row
unfolding sweep_of miss_of
fire_not_missed clock c rows now args row m n f k e =
    let (r, _, i) = (mem-misses clock c rows now args m).0 k in
    let q : (r.routine_id, i.anchor) ≡ key_of row =
      sym (ap (λ (x : Miss). (x.routine_id, x.scheduled_anchor_ts)) i.row) ∙ e in
    let h : has_fire (get (r.routine_id, i.anchor) (index_completions rows)) ≡ true =
      rw q (has_fire-index rows row n f) in
    let u = i.unseen in ground arith

-- If stamp_fire makes a completion of a routine's fire, and it is among the rows, then no miss
-- that the sweep reports is of that routine and of its anchor on the fire's local day.
pub stamped_not_missed :
    (clock : Clock) (c : Catalog) (rows : List Completion) (now : ℕ) (args : SweepArgs)
    (r : Routine) (f : Fire) (row : Completion) (m : Miss)
    → stamp_fire clock r f ≡ ok row
    → Memᴰ row rows
    → Memᴰ m (miss_sweep clock c rows now args).tally.misses
    → m.routine_id ≡ r.routine_id
    → m.scheduled_anchor_ts ≢ local_anchor clock r (clock.date_of r.timezone f.fired_at)
stamped_not_missed clock c rows now args r f row m h n k e a =
    let i = stamp_fire-IsStamp clock r f row h in
    fire_not_missed clock c rows now args row m n (stamp_fire-is_fire clock r f row h) k
      (ground (arith, i.own_id, i.at_day))
