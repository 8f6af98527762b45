-- ===== src/Delivery/Gates.antt =====
-- packages/delivery/src/mm_delivery/gates.py: the gates of a send, a decision without its notes.
pub mod Laws
use market_memory.Prelude.{
  ℕ, Bool, true, false, ◌&&◌, ◌||◌, not, Option, none, some, String, str_eq, if◌then◌else◌, ltb,
  leb, ◌==◌,
}
use market_memory.Prelude.Dict.{lookup}
use market_memory.Delivery.Config.{
  ThresholdSpec, ThresholdSettings, QuietHours, TelegramSettings, spec, has_numeric, has_params,
}

-- The `REASON_` constants, and the error class of a failed send.
pub data Reason : Type 0 where
  reason_ok no_send threshold_config_required threshold_not_met quiet_hours dedupe_hit : Reason
  rate_limited missing_env missing_chat_id missing_principal_dm principal_dm_is_group : Reason
  desk_disabled kind_disabled retries_exhausted : Reason
  failed : String → Reason

pub record GateDecision : Type 0 where
  pub allow : Bool
  pub reason : Reason

abbrev pub allowing : GateDecision
allowing = record { allow = true; reason = reason_ok }

abbrev pub refusing : Reason → GateDecision
refusing r = record { allow = false; reason = r }

-- At a time of day.
unfoldable pub in_quiet_hours : ℕ → ℕ → ℕ → Bool
in_quiet_hours local start end =
    if start == end
    then false
    else if ltb start end
    then leb start local && ltb local end
    else leb start local || ltb local end

-- The comparison with `min_completeness_pct`.
abbrev below_completeness : Option ℕ → Option ℕ → Bool
below_completeness none pct = false
below_completeness (some least) none = false
below_completeness (some least) (some pct) = ltb pct least

-- The comparison with `min_events`.
abbrev below_events : Option ℕ → String → Option ℕ → Bool
below_events none kind count = false
below_events (some least) kind none = str_eq kind "alert" && ltb 0 least
below_events (some least) kind (some count) = str_eq kind "alert" && ltb count least

abbrev evaluate_spec : ThresholdSpec → String → Option ℕ → GateDecision
evaluate_spec row kind pct =
    if not row.enabled
    then refusing kind_disabled
    else if not (has_params row.params)
    then refusing threshold_config_required
    else if below_completeness (lookup "min_completeness_pct" row.params) pct
    then refusing threshold_not_met
    else if below_events (lookup "min_events" row.params) kind pct
    then refusing threshold_not_met
    else allowing

unfoldable pub evaluate_threshold : ThresholdSettings → String → Option ℕ → GateDecision
evaluate_threshold settings kind pct =
    if settings.require_threshold_config && not (has_numeric settings)
    then refusing threshold_config_required
    else elim (spec kind settings) [
      | none ↦
          if settings.require_threshold_config then refusing threshold_config_required else allowing
      | some row ↦ evaluate_spec row kind pct
    ]

unfoldable pub evaluate_quiet_hours : QuietHours → ℕ → Bool → GateDecision
evaluate_quiet_hours q now respect =
    if not respect || not q.enabled
    then allowing
    else if in_quiet_hours (q.timezone now) q.start q.end
    then refusing quiet_hours
    else allowing

unfoldable pub evaluate_send_gates :
    TelegramSettings → String → ℕ → Option ℕ → Bool → Bool → GateDecision
evaluate_send_gates settings kind now pct desk_enabled respect_quiet_hours =
    if not desk_enabled
    then refusing desk_disabled
    else let th = evaluate_threshold settings.thresholds kind pct in
      if not th.allow then th else evaluate_quiet_hours settings.quiet_hours now respect_quiet_hours
