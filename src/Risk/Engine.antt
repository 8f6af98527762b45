-- ===== src/Risk/Engine.antt =====
-- packages/risk/src/mm_risk/engine.py: allow or BLOCK an intent.
pub mod Laws
use market_memory.Prelude.{
  Bool, true, false, ◌&&◌, ◌||◌, not, Option, none, some, List, [], ◌∷◌, String, str_eq, text_in,
  if◌then◌else◌, norm, strip, upper, truthy, or_default,
}
use market_memory.Prelude.Int.{ℤ, pos, ltb_ℤ}
use market_memory.Risk.Config.{
  RiskConfig, RiskIntent, RiskResult, Decision, allow, block, blank_or_placeholder,
}
use market_memory.Risk.Drawdown.{
  DrawdownConfig, Action, no_action, sleeve_half, dry_review, DrawdownDecision, evaluate_drawdown,
}
use market_memory.Risk.Clusters.{ClusterCap}

-- What `evaluate` reads of the repository: the kill-switch file, clusters.yaml, drawdown.yaml.
pub record Repo : Type 0 where
  pub halt_flag_present : Bool
  pub clusters : ClusterCap
  pub drawdown : DrawdownConfig

-- `_block`
abbrev pub blocked : String → RiskConfig → RiskResult
blocked rule_id cfg = record {
  decision = block;
  rule_id = rule_id;
  config_version = cfg.config_version;
  terminal = true;
  live_trading_enabled = cfg.live_trading_enabled;
  haircut_pct = none;
}

-- `_allow`
abbrev pub allowed : RiskConfig → String → Option ℤ → RiskResult
allowed cfg rule_id haircut = record {
  decision = allow;
  rule_id = rule_id;
  config_version = cfg.config_version;
  terminal = false;
  live_trading_enabled = cfg.live_trading_enabled;
  haircut_pct = haircut;
}

abbrev pub text_or : Option String → String → String
text_or none d = d
text_or (some s) d = or_default s d

-- `value.strip().upper()`
abbrev pub upper_norm : String → String
upper_norm s = upper (strip s)

-- The liquidity verdict, the event risk, and the plain allow.
unfoldable pub evaluate_market : RiskIntent → RiskConfig → RiskResult
evaluate_market intent cfg =
    if str_eq (upper_norm (text_or intent.liquidity_verdict "")) "UNTRADEABLE_AT_SIZE"
      && str_eq cfg.untradeable_action "block"
    then blocked (or_default cfg.untradeable_rule_id "untradeable_at_size") cfg
    else if intent.event_risk && str_eq cfg.event_risk_action "haircut"
    then allowed cfg (or_default cfg.event_risk_rule_id "event_risk")
        (some cfg.event_risk_haircut_pct)
    else allowed cfg "allow_config" none

-- The drawdown ladder, then the market. `sleeve_half` allows at once.
evaluate_ladder : DrawdownDecision → RiskIntent → RiskConfig → RiskResult
evaluate_ladder d intent cfg = elim d.action [
  | dry_review ↦ blocked (text_or d.rule_id "drawdown_dry_review") cfg
  | sleeve_half ↦ allowed cfg (text_or d.rule_id "drawdown_sleeve_half") (some (pos 5000))
  | no_action ↦ evaluate_market intent cfg
]

unfoldable pub evaluate_exposure : RiskIntent → Repo → RiskConfig → RiskResult
unfolding evaluate_ladder
evaluate_exposure intent repo cfg = elim intent.rolling_drawdown_pct [
  | none ↦ evaluate_market intent cfg
  | some dd ↦
      evaluate_ladder (evaluate_drawdown (some dd) intent.drawdown_n repo.drawdown) intent cfg
]

abbrev pub over_cap : Option ℤ → ClusterCap → Bool
over_cap none c = false
over_cap (some x) c = ltb_ℤ c.max_cluster_pct x

abbrev pub halted : RiskIntent → Repo → Option Bool → Bool
halted intent repo none = intent.halt || repo.halt_flag_present
halted intent repo (some h) = h

-- `evaluate`, the configuration given or loaded.
unfoldable pub evaluate : RiskIntent → Repo → RiskConfig → Option Bool → RiskResult
evaluate intent repo cfg halt =
    if cfg.llm_at_order_time
    then blocked "llm_at_order_time_forbidden" cfg
    else if str_eq (norm (or_default intent.environment cfg.environment)) "live"
        || cfg.live_trading_enabled
    then blocked "live_trading_hard_gated" cfg
    else if halted intent repo halt
    then blocked "halt_active" cfg
    else if not (text_in (upper_norm intent.instrument) cfg.instruments_allowlist)
    then blocked "instrument_not_allowlisted" cfg
    else if cfg.require_invalidation && blank_or_placeholder (some intent.invalidation)
    then blocked "missing_invalidation" cfg
    else if cfg.require_max_loss && blank_or_placeholder (some intent.max_loss)
    then blocked "missing_max_loss" cfg
    else if ltb_ℤ cfg.max_leverage intent.leverage
    then blocked "leverage_exceeds_max" cfg
    else if over_cap intent.cluster_exposure_pct repo.clusters
    then blocked (or_default repo.clusters.rule_id "cluster_concentration") cfg
    else evaluate_exposure intent repo cfg
