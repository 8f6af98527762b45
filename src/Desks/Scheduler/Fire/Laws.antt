-- ===== src/Desks/Scheduler/Fire/Laws.antt =====
-- What a stamp says of its fire.
use mathlib.Core.Path.{subst}
use market_memory.Prelude.{
  ℕ, ◌+◌, ◌≤◌, ◌<◌, Bool-cases, true, false, some, ◌≡◌, ◌≢◌, refl, ◌↔◌, ok, arith, inl, inr,
}
use market_memory.Prelude.Int.{ℤ, abs}
use market_memory.Desks.Scheduler.{
  Clock, Routine, Completion, ok_status, early, late, is_fire, micros,
}
use market_memory.Desks.Scheduler.Fire.{
  Fire, delta_seconds, classify_delta, scheduled_slot, stamp_fire, stamped, local_anchor,
  is_scheduled,
}

-- A fire is ok exactly when it is less than one second more than late_after_seconds off the anchor
-- on either side, early exactly when it is that much or more before the anchor, and late exactly
-- when it is that much or more after it: a fraction of a second is cut off.
pub classify_delta-sides :
    (anchor fired late_after : ℕ)
    → let status = classify_delta (delta_seconds anchor fired) late_after in
      let grace = micros (late_after + 1) in
      ((status ≡ ok_status) ↔ ((fired < anchor + grace) × (anchor < fired + grace)))
      × ((status ≡ early) ↔ (fired + grace ≤ anchor))
      × ((status ≡ late) ↔ (anchor + grace ≤ fired))
unfolding classify_delta delta_seconds abs
classify_delta-sides anchor fired late_after = ground arith

classify_delta-is_fire :
    (delta : ℤ) (late_after : ℕ) → is_fire (classify_delta delta late_after) ≡ true
unfolding classify_delta
classify_delta-is_fire delta late_after = ground arith

-- What a stamp says of its fire.
pub record IsStamp (clock : Clock) (r : Routine) (f : Fire) (c : Completion) : Type 0 where
  pub own_id : c.routine_id ≡ r.routine_id
  pub fired_at : c.fired_at_ts ≡ some f.fired_at
  pub scheduled : is_scheduled r (clock.date_of r.timezone f.fired_at) ≡ true
  pub at_day : c.scheduled_anchor_ts ≡ local_anchor clock r (clock.date_of r.timezone f.fired_at)
  pub delta : c.delta_seconds ≡ some (delta_seconds c.scheduled_anchor_ts f.fired_at)
  pub status :
      c.status
      ≡ classify_delta (delta_seconds c.scheduled_anchor_ts f.fired_at) r.late_after_seconds

-- If stamp_fire makes a completion, then the fire's local day is a scheduled one, the anchor is the
-- routine's anchor of that day, the delta is the fire's from that anchor, and the status is
-- classify_delta's of it.
pub stamp_fire-IsStamp :
    (clock : Clock) (r : Routine) (f : Fire) (c : Completion)
    → stamp_fire clock r f ≡ ok c
    → IsStamp clock r f c
unfolding stamp_fire scheduled_slot
stamp_fire-IsStamp clock r f c h =
    elim (Bool-cases (is_scheduled r (clock.date_of r.timezone f.fired_at))) [
      | inr n ↦ ground arith
      | inl s ↦
          let anchor = local_anchor clock r (clock.date_of r.timezone f.fired_at) in
          let e : stamped r f anchor ≡ c = ground arith in
          subst (IsStamp clock r f) e (record {
            own_id = refl;
            fired_at = refl;
            scheduled = s;
            at_day = refl;
            delta = refl;
            status = refl;
          })
    ]

-- A stamped completion is one of a fire.
pub stamp_fire-is_fire :
    (clock : Clock) (r : Routine) (f : Fire) (c : Completion)
    → stamp_fire clock r f ≡ ok c
    → is_fire c.status ≡ true
stamp_fire-is_fire clock r f c h =
    let i = stamp_fire-IsStamp clock r f c h in
    rw i.status (classify_delta-is_fire _ r.late_after_seconds)

-- If the fire's local day is not scheduled, then stamp_fire makes no completion.
pub stamp_fire-refused :
    (clock : Clock) (r : Routine) (f : Fire)
    → is_scheduled r (clock.date_of r.timezone f.fired_at) ≡ false
    → (c : Completion) → stamp_fire clock r f ≢ ok c
stamp_fire-refused clock r f n c h =
    let s = (stamp_fire-IsStamp clock r f c h).scheduled in ground arith

-- A fire on a scheduled day is stamped with the anchor of the day.
pub stamp_fire-scheduled :
    (clock : Clock) (r : Routine) (f : Fire)
    → is_scheduled r (clock.date_of r.timezone f.fired_at) ≡ true
    → stamp_fire clock r f
      ≡ ok (stamped r f (local_anchor clock r (clock.date_of r.timezone f.fired_at)))
unfolding stamp_fire scheduled_slot
stamp_fire-scheduled clock r f h = rw h refl
