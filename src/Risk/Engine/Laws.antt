-- ===== src/Risk/Engine/Laws.antt =====
-- What an allow has passed, what always blocks, and the branch of the ladder that goes round the
-- liquidity verdict.
use market_memory.Prelude.{none, ◌⊎◌, arith}
use market_memory.Risk.Config.{block}
use market_memory.Risk.Engine.{text_or, evaluate_market}
use market_memory.Prelude.{
  ◌≡◌, ◌≢◌, Bool, true, false, Option, some, eq_iff, text_in, norm, or_default, arith,
}
use market_memory.Prelude.Int.{◌≤ℤ◌}
use market_memory.Risk.Config.{RiskConfig, RiskIntent, allow, blank_or_placeholder}
use market_memory.Risk.Engine.{Repo, evaluate, evaluate_exposure, halted, over_cap, upper_norm}

-- Every gate of the first part is passed.
pub record IsCleared (i : RiskIntent) (r : Repo) (c : RiskConfig) (h : Option Bool) : Type 0 where
  pub no_llm : c.llm_at_order_time ≡ false
  pub not_live : norm (or_default i.environment c.environment) ≢ "live"
  pub live_off : c.live_trading_enabled ≡ false
  pub not_halted : halted i r h ≡ false
  pub listed : text_in (upper_norm i.instrument) c.instruments_allowlist ≡ true
  pub invalidation_given :
      c.require_invalidation ≡ true → blank_or_placeholder (some i.invalidation) ≡ false
  pub max_loss_given : c.require_max_loss ≡ true → blank_or_placeholder (some i.max_loss) ≡ false
  pub leverage_bounded : i.leverage ≤ℤ c.max_leverage
  pub cluster_bounded : over_cap i.cluster_exposure_pct r.clusters ≡ false

-- If evaluate allows an intent, then no LLM is used at order time, neither the environment nor the
-- switch is live, no halt holds, the instrument is on the allowlist, a required invalidation and
-- max loss are given, the leverage is at most the maximum, and a given cluster exposure is at most
-- the cap.
pub evaluate-allow-IsCleared :
    (i : RiskIntent) (r : Repo) (c : RiskConfig) (h : Option Bool)
    → (evaluate i r c h).decision ≡ allow
    → IsCleared i r c h
unfolding evaluate
evaluate-allow-IsCleared i r c h a =
    ground (arith, eq_iff (norm (or_default i.environment c.environment)) "live")

pub evaluate-cleared :
    (i : RiskIntent) (r : Repo) (c : RiskConfig) (h : Option Bool)
    → IsCleared i r c h
    → evaluate i r c h ≡ evaluate_exposure i r c
unfolding evaluate
evaluate-cleared i r c h a =
    ground (arith, eq_iff (norm (or_default i.environment c.environment)) "live")

-- If an LLM is configured at order time, or the environment is live, or live trading is enabled,
-- or a halt holds, then evaluate blocks and names no haircut.
pub hard_gates_block :
    (i : RiskIntent) (r : Repo) (c : RiskConfig) (h : Option Bool)
    → (c.llm_at_order_time ≡ true)
      ⊎ ((norm (or_default i.environment c.environment) ≡ "live")
          ⊎ ((c.live_trading_enabled ≡ true) ⊎ (halted i r h ≡ true)))
    → ((evaluate i r c h).decision ≡ block) × ((evaluate i r c h).haircut_pct ≡ none)
unfolding evaluate
hard_gates_block i r c h g =
    ground (arith, eq_iff (norm (or_default i.environment c.environment)) "live")

-- The verdict UNTRADEABLE_AT_SIZE, with the action `block` configured for it.
pub record IsUntradeable (i : RiskIntent) (c : RiskConfig) : Type 0 where
  pub verdict : upper_norm (text_or i.liquidity_verdict "") ≡ "UNTRADEABLE_AT_SIZE"
  pub action : c.untradeable_action ≡ "block"

-- If the liquidity verdict is UNTRADEABLE_AT_SIZE, the configured action for it is block, and the
-- intent gives no drawdown, then evaluate blocks.
pub untradeable_blocks :
    (i : RiskIntent) (r : Repo) (c : RiskConfig) (h : Option Bool)
    → IsUntradeable i c
    → i.rolling_drawdown_pct ≡ none
    → (evaluate i r c h).decision ≡ block
unfolding evaluate evaluate_exposure evaluate_market
untradeable_blocks i r c h u n = ground (
  arith,
  eq_iff (upper_norm (text_or i.liquidity_verdict "")) "UNTRADEABLE_AT_SIZE",
  eq_iff c.untradeable_action "block",
)
