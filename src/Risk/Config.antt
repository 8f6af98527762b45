-- ===== src/Risk/Config.antt =====
-- packages/risk/src/mm_risk/config.py and models.py: the configuration after loading, the intent
-- and the result. A float (a percentage, a leverage, an amount) is an integer number of
-- hundredths; `config_version`, a digest of the YAML by hashlib, is a text of the configuration.
use market_memory.Prelude.{Bool, true, Option, none, some, List, [], ◌∷◌, String, norm, text_in, ℕ}
use market_memory.Prelude.Int.{ℤ}

pub record RiskConfig : Type 0 where
  pub environment : String
  pub live_trading_enabled : Bool
  pub max_leverage : ℤ
  pub instruments_allowlist : List String
  pub require_invalidation : Bool
  pub require_max_loss : Bool
  pub llm_at_order_time : Bool
  pub untradeable_action : String
  pub untradeable_rule_id : String
  pub event_risk_action : String
  pub event_risk_haircut_pct : ℤ
  pub event_risk_rule_id : String
  pub config_version : String

pub record RiskIntent : Type 0 where
  pub instrument : String
  pub invalidation : String
  pub max_loss : String
  pub leverage : ℤ
  pub environment : String
  pub halt : Bool
  pub liquidity_verdict : Option String
  pub event_risk : Bool
  pub cluster_exposure_pct : Option ℤ
  pub rolling_drawdown_pct : Option ℤ
  pub drawdown_n : ℕ

-- `RiskResult` without the reasons, which are messages.
pub data Decision : Type 0 where
  allow block : Decision

pub record RiskResult : Type 0 where
  pub decision : Decision
  pub rule_id : String
  pub config_version : String
  pub terminal : Bool
  pub live_trading_enabled : Bool
  pub haircut_pct : Option ℤ

-- `_PLACEHOLDERS`
abbrev placeholders : List String
placeholders = "" ∷ "-" ∷ "n/a" ∷ "na" ∷ "none" ∷ "null" ∷ "tbd" ∷ "todo" ∷ "?" ∷ "unknown" ∷ []

unfoldable pub blank_or_placeholder : Option String → Bool
blank_or_placeholder none = true
blank_or_placeholder (some value) = text_in (norm value) placeholders
