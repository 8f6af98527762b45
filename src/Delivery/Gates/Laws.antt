-- ===== src/Delivery/Gates/Laws.antt =====
-- The quiet hours as an arc of the day, and what an open gate means.
use market_memory.Prelude.{
  inr, inl, ℕ, ◌≡◌, ◌≤◌, ◌<◌, ◌+◌, ◌-◌, true, Option, some, String, eq_iff, arith, Option-cases,
  ◌↔◌,
}
use Prim.Native.Nat.{◌%◌}
use market_memory.Prelude.Dict.{lookup}
use market_memory.Delivery.Config.{ThresholdSpec, ThresholdSettings, spec, has_params}
use market_memory.Delivery.Gates.{in_quiet_hours, evaluate_threshold}

-- The seconds from the start to a time of day, around the clock.
pub since : ℕ → ℕ → ℕ
since start t = (t + 86400 - start) % 86400

-- For times within a day, a time is in the quiet hours exactly if it lies on the arc of the clock
-- from the start to the end, the end not included.
pub in_quiet_hours_arc :
    (local start end : ℕ)
    → local < 86400
    → start < 86400
    → end < 86400
    → (in_quiet_hours local start end ≡ true) ↔ (since start local < since start end)
unfolding in_quiet_hours since
in_quiet_hours_arc local start end l s e = ground arith

-- What the gate asks of the spec of a kind.
pub record IsMet (kind : String) (pct : Option ℕ) (row : ThresholdSpec) : Type 0 where
  pub enabled : row.enabled ≡ true
  pub numeric : has_params row.params ≡ true
  pub completeness :
      (least n : ℕ)
      → lookup "min_completeness_pct" row.params ≡ some least
      → pct ≡ some n
      → least ≤ n
  pub events :
      (least n : ℕ)
      → kind ≡ "alert"
      → lookup "min_events" row.params ≡ some least
      → pct ≡ some n
      → least ≤ n

-- If thresholds are required and the threshold gate allows a kind, then the kind has an enabled
-- spec with parameters, a given completeness reaches its minimum, and a given count of alert
-- events reaches its minimum.
pub evaluate_threshold-IsMet :
    (settings : ThresholdSettings) (kind : String) (pct : Option ℕ)
    → settings.require_threshold_config ≡ true
    → (evaluate_threshold settings kind pct).allow ≡ true
    → (row : ThresholdSpec) × (spec kind settings ≡ some row) × IsMet kind pct row
unfolding evaluate_threshold
evaluate_threshold-IsMet settings kind pct r h = elim (Option-cases (spec kind settings)) [
  | inl e ↦ ground arith
  | inr (row, e) ↦ (
    row,
    e,
    record {
      enabled = ground arith;
      numeric = ground arith;
      completeness = λ least n a b. ground arith;
      events = λ least n k a b. ground (arith, eq_iff kind "alert");
    },
  )
]
