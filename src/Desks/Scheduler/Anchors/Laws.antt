-- ===== src/Desks/Scheduler/Anchors/Laws.antt =====
-- Which anchors are found.
use market_memory.Prelude.{
  ◌-◌, ◌*◌, [], ◌∷◌, sym, ℕ, ◌+◌, ◌≤◌, ◌<◌, zero, suc, true, false, ◌≡◌, refl, ◌↔◌, inl, inr, arith,
  Bool, Bool-cases, leb→le, ltb→lt, ◌&&◌, ◌==◌, ==_iff,
}
use market_memory.Prelude.Members.{kept_cases, kept_head, kept_tail, Memᴰ}
use market_memory.Prelude.Members.Memᴰ
use market_memory.Desks.Scheduler.{micros, seconds_per_day, ◌∷◌, List, Clock, Routine}
use market_memory.Desks.Scheduler.Fire.{local_anchor, is_scheduled}
use market_memory.Desks.Scheduler.Anchors.{
  window_closed, keep_closed, closed_anchors, ltb, leb, in_span, scan_days, anchors_between,
}

-- Around the anchor of a day, the local date is near that day: not beyond the next day before the
-- anchor, and not before the last day after it.
pub record IsNear (clock : Clock) (r : Routine) : Type 0 where
  pub before : (day t : ℕ) → t ≤ local_anchor clock r day → clock.date_of r.timezone t ≤ day + 1
  pub after : (day t : ℕ) → local_anchor clock r day ≤ t → day ≤ clock.date_of r.timezone t + 1

-- An anchor of a scheduled day.
pub record IsAnchor (clock : Clock) (r : Routine) (t : ℕ) : Type 0 where
  pub day : ℕ
  pub scheduled : is_scheduled r day ≡ true
  pub at_day : t ≡ local_anchor clock r day

&&_both : (a b : Bool) → (a && b) ≡ true → (a ≡ true) × (b ≡ true)
&&_both true b h = (refl, h)
&&_both false b h = ground arith

module _ (clock : Clock) (r : Routine) where
  in_loop :
      (start end day : ℕ)
      → is_scheduled r day ≡ true
      → start ≤ local_anchor clock r day
      → local_anchor clock r day < end
      → (is_scheduled r day && in_span start end (local_anchor clock r day)) ≡ true
  in_loop start end day s a b = ground arith

  scan_days-IsAnchor :
      (start end n day t : ℕ)
      → Memᴰ t (scan_days clock r start end n day)
      → IsAnchor clock r t × (start ≤ t) × (t < end)
  unfolding scan_days
  scan_days-IsAnchor start end zero day t m = absurd (Memᴰ.not-nil m)
  scan_days-IsAnchor start end (suc n) day t m =
      let when = local_anchor clock r day in
      let c = is_scheduled r day && in_span start end when in
      elim (kept_cases c m) [
        | inr k ↦ scan_days-IsAnchor start end n (suc day) t k
        | inl (h, e) ↦
            let (s, i) = &&_both (is_scheduled r day) (in_span start end when) h in
            let (a, b) = &&_both (leb start when) (ltb when end) i in
            (
              record { day = day; scheduled = s; at_day = e },
              omega (arith, e, leb→le start when a),
              omega (arith, e, ltb→lt when end b),
            )
      ]

  mem-scan_days :
      (start end n first day : ℕ)
      → is_scheduled r day ≡ true
      → start ≤ local_anchor clock r day
      → local_anchor clock r day < end
      → first ≤ day
      → day < first + n
      → Memᴰ (local_anchor clock r day) (scan_days clock r start end n first)
  unfolding scan_days
  mem-scan_days start end zero first day s a b lo hi = absurd (omega arith)
  mem-scan_days start end (suc n) first day s a b lo hi =
      let c = is_scheduled r first && in_span start end (local_anchor clock r first) in
      elim (Bool-cases (first == day)) [
        | inr e ↦
            kept_tail c _
              (mem-scan_days start end n (suc first) day s a b (ground arith) (omega arith))
        | inl e ↦
            let f = (==_iff first day).0 e in
            kept_head c _ (rw f (in_loop start end day s a b)) (rw f refl)
      ]

  -- If the local dates are near the days of the anchors, then an instant is among anchors_between
  -- exactly when it is the anchor of a scheduled day, is not before the start and is before the end.
  pub anchors_between_iff :
      (start end t : ℕ)
      → IsNear clock r
      → Memᴰ t (anchors_between clock r start end) ↔ (IsAnchor clock r t × (start ≤ t) × (t < end))
  unfolding anchors_between
  anchors_between_iff start end t z = (
    scan_days-IsAnchor start end _ _ t,
    λ (a, lo, hi).
        let before = z.before a.day start (omega (arith, a.at_day, lo)) in
        let after = z.after a.day end (omega (arith, a.at_day, hi)) in
        rw a.at_day (
          mem-scan_days start end _ _ a.day a.scheduled (omega (arith, a.at_day, lo))
            (omega (arith, a.at_day, hi)) (omega (arith, before)) (omega (arith, before, after))),
  )

mem-keep_closed :
    (now miss_after t : ℕ) (ts : List ℕ)
    → Memᴰ t (keep_closed now miss_after ts) ↔ (Memᴰ t ts × (window_closed t now miss_after ≡ true))
unfolding keep_closed
mem-keep_closed now miss_after t [] = (λ m. absurd (Memᴰ.not-nil m), λ m. m.0)
mem-keep_closed now miss_after t (u ∷ us) =
    let rest = mem-keep_closed now miss_after t us in
    let c = window_closed u now miss_after in
    (
      λ m. elim (kept_cases c m) [
        | inl (h, e) ↦ (Memᴰ.head e, rw e h)
        | inr k ↦ let (a, b) = rest.0 k in (Memᴰ.tail a, b)
      ],
      λ (m, h). elim (Memᴰ.cases_cons m) [
        | inl e ↦ kept_head c _ (rw (sym e) h) e
        | inr k ↦ kept_tail c _ (rest.1 (k, h))
      ],
    )

module _ (clock : Clock) (r : Routine) where
  -- If at an instant no later than the anchor of a day the local date is at most the next day, and
  -- at an instant no earlier than that anchor it is at least the day before, then an instant is
  -- among closed_anchors exactly when it is the anchor of a scheduled day, lies in the days that
  -- are looked back on and is miss_after_seconds or more in the past.
  pub closed_anchors_iff :
      (now lookback_days t : ℕ)
      → IsNear clock r
      → Memᴰ t (closed_anchors clock r now lookback_days) ↔ (
          IsAnchor clock r t
          × (now - micros (lookback_days * seconds_per_day) ≤ t)
          × (t + micros r.miss_after_seconds ≤ now))
  unfolding closed_anchors window_closed
  closed_anchors_iff now lookback_days t z =
      let start = now - micros (lookback_days * seconds_per_day) in
      let span = anchors_between_iff clock r start (now + micros 1) t z in
      let closed =
        mem-keep_closed now r.miss_after_seconds t
          (anchors_between clock r start (now + micros 1)) in
      (
        λ m.
            let (k, c) = closed.0 m in
            let (a, lo, hi) = span.0 k in (a, lo, leb→le (t + micros r.miss_after_seconds) now c),
        λ (a, lo, c). closed.1 (span.1 (a, lo, omega (arith, c)), ground arith),
      )
