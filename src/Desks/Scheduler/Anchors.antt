-- ===== src/Desks/Scheduler/Anchors.antt =====
-- packages/desks/src/mm_desks/scheduler.py: the anchors of a routine in a span of time, and those
-- whose window is closed.
pub mod Laws
use market_memory.Prelude.{
  ℕ, ◌+◌, ◌-◌, ◌*◌, zero, suc, Bool, true, false, List, [], ◌∷◌, leb, ltb, ◌&&◌, if◌then◌else◌,
}
use market_memory.Desks.Scheduler.{Clock, Routine, seconds_per_day, micros}
use market_memory.Desks.Scheduler.Fire.{local_anchor, is_scheduled}

-- `window_closed`
unfoldable pub window_closed : ℕ → ℕ → ℕ → Bool
window_closed anchor now miss_after_seconds = leb (anchor + micros miss_after_seconds) now

-- `start_u <= when < end_u`
abbrev pub in_span : ℕ → ℕ → ℕ → Bool
in_span start end when = leb start when && ltb when end

-- The loop of anchors_between, over `n` days from `day`.
unfoldable pub scan_days : Clock → Routine → ℕ → ℕ → ℕ → ℕ → List ℕ
scan_days clock r start end zero day = []
scan_days clock r start end (suc n) day =
    let rest = scan_days clock r start end n (suc day) in
    let when = local_anchor clock r day in
    if is_scheduled r day && in_span start end when then when ∷ rest else rest

-- `anchors_between`
unfoldable pub anchors_between : Clock → Routine → ℕ → ℕ → List ℕ
anchors_between clock r start end =
    let first = clock.date_of r.timezone start - 1 in
    let last = clock.date_of r.timezone end + 1 in
    scan_days clock r start end (last + 1 - first) first

unfoldable pub keep_closed : ℕ → ℕ → List ℕ → List ℕ
keep_closed now miss_after [] = []
keep_closed now miss_after (t ∷ ts) =
    let rest = keep_closed now miss_after ts in
    if window_closed t now miss_after then t ∷ rest else rest

-- `closed_anchors`
unfoldable pub closed_anchors : Clock → Routine → ℕ → ℕ → List ℕ
closed_anchors clock r now lookback_days =
    keep_closed now r.miss_after_seconds
      (anchors_between clock r (now - micros (lookback_days * seconds_per_day)) (now + micros 1))
