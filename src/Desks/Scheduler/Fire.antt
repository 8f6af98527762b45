-- ===== src/Desks/Scheduler/Fire.antt =====
-- packages/desks/src/mm_desks/scheduler.py: how a fire is stamped with its anchor and classified.
pub mod Laws
use Prim.Native.Nat.{◌%◌}
use market_memory.Prelude.{
  ◌-◌, ◌/◌, ℕ, ◌+◌, zero, suc, Bool, Option, none, some, List, [], ◌∷◌, String, Result, ok, err,
  text_in, if◌then◌else◌, not,
}
use market_memory.Prelude.Int.{ℤ, pos, abs, leb_ℤ, ltb_ℤ, sub_ℕ}
use market_memory.Desks.Scheduler.{Clock, Status, ok_status, early, late, Routine, Completion}

-- `delta_seconds`: the whole seconds of fired - anchor, cut toward zero.
unfoldable pub delta_seconds : ℕ → ℕ → ℤ
delta_seconds anchor fired = sub_ℕ ((fired - anchor) / 1000000) ((anchor - fired) / 1000000)

-- `classify_delta`
unfoldable pub classify_delta : ℤ → ℕ → Status
unfolding abs
classify_delta delta late_after_seconds =
    if leb_ℤ (abs delta) (pos late_after_seconds)
    then ok_status
    else if ltb_ℤ delta (pos 0)
    then early
    else late

nth_name : ℕ → List String → String
nth_name k [] = ""
nth_name zero (n ∷ ns) = n
nth_name (suc k) (n ∷ ns) = nth_name k ns

-- `WEEKDAY_NAMES[day.weekday()]`, with `date.weekday` of an ordinal.
unfoldable pub weekday_of : ℕ → String
unfolding nth_name
weekday_of day =
    nth_name ((day + 6) % 7) ("Mon" ∷ "Tue" ∷ "Wed" ∷ "Thu" ∷ "Fri" ∷ "Sat" ∷ "Sun" ∷ [])

-- `local_anchor`
unfoldable pub local_anchor : Clock → Routine → ℕ → ℕ
local_anchor clock r day = clock.instant r.timezone day r.local_time

-- `weekday in routine.weekdays`
unfoldable pub is_scheduled : Routine → ℕ → Bool
is_scheduled r day = text_in (weekday_of day) r.weekdays

-- What scheduled_slot returns.
pub record Slot : Type 0 where
  pub anchor : ℕ
  pub weekday_ok : Bool
  pub weekday : String

-- `scheduled_slot`
unfoldable pub scheduled_slot : Clock → Routine → ℕ → Slot
scheduled_slot clock r fired =
    let day = clock.date_of r.timezone fired in
    record {
      anchor = local_anchor clock r day;
      weekday_ok = is_scheduled r day;
      weekday = weekday_of day;
    }

-- The payload of a `WrongAnchorError`.
pub record WrongAnchor : Type 0 where
  pub reason : String
  pub routine_id : String
  pub fired_at_ts : ℕ
  pub local_weekday : String
  pub scheduled_weekdays : List String
  pub would_be_anchor_ts : ℕ

-- The keyword arguments of stamp_fire.
pub record Fire : Type 0 where
  pub fired_at : ℕ
  pub run_id : String
  pub as_of_knowledge : Option ℕ
  pub source : String
  pub exit_status : Option ℤ
  pub payload_path : Option String
  pub cli : Option String

abbrev pub wrong_anchor_reason : String
wrong_anchor_reason = "fired_on_unscheduled_weekday"

abbrev instant_or : Option ℕ → ℕ → ℕ
instant_or none t = t
instant_or (some s) t = s

abbrev pub stamped : Routine → Fire → ℕ → Completion
stamped r f anchor =
    let delta = delta_seconds anchor f.fired_at in
    record {
      routine_id = r.routine_id;
      run_id = f.run_id;
      scheduled_anchor_ts = anchor;
      fired_at_ts = some f.fired_at;
      delta_seconds = some delta;
      status = classify_delta delta r.late_after_seconds;
      as_of_knowledge = instant_or f.as_of_knowledge f.fired_at;
      source = f.source;
      exit_status = f.exit_status;
      payload_path = f.payload_path;
      cli = f.cli;
      reason = none;
    }

-- `stamp_fire`
unfoldable pub stamp_fire : Clock → Routine → Fire → Result WrongAnchor Completion
stamp_fire clock r f =
    let slot = scheduled_slot clock r f.fired_at in
    if not slot.weekday_ok
    then err (record {
      reason = wrong_anchor_reason;
      routine_id = r.routine_id;
      fired_at_ts = f.fired_at;
      local_weekday = slot.weekday;
      scheduled_weekdays = r.weekdays;
      would_be_anchor_ts = slot.anchor;
    })
    else ok (stamped r f slot.anchor)
