-- ===== src/Risk/Tests.antt =====
-- Intents run through the risk gate.
use market_memory.Prelude.{◌≡◌, refl, true, false, none, some, [], ◌∷◌, norm, strip, upper}
use market_memory.Prelude.Int.{pos, negsuc, abs}
use market_memory.Risk.Config.{RiskConfig, RiskIntent, allow, blank_or_placeholder}
use market_memory.Risk.Drawdown.{DrawdownConfig, evaluate_drawdown}
use market_memory.Risk.Engine.{Repo, evaluate, evaluate_exposure, evaluate_market}
use market_memory.Risk.Engine.Laws.{IsCleared, IsUntradeable, evaluate-allow-IsCleared}

abbrev ladder : DrawdownConfig
ladder = record {
  sleeve_half_pct = pos 800;
  dry_review_pct = pos 1500;
  n_equals_1_noop = true;
  rule_id_half = "drawdown_sleeve_half";
  rule_id_dry = "drawdown_dry_review";
}

abbrev repo : Repo
repo = record {
  halt_flag_present = false;
  clusters = record { max_cluster_pct = pos 5000; rule_id = "cluster_concentration" };
  drawdown = ladder;
}

abbrev paper_config : RiskConfig
paper_config = record {
  environment = "paper";
  live_trading_enabled = false;
  max_leverage = pos 100;
  instruments_allowlist = "BTC" ∷ "ETH" ∷ [];
  require_invalidation = true;
  require_max_loss = true;
  llm_at_order_time = false;
  untradeable_action = "block";
  untradeable_rule_id = "untradeable_at_size";
  event_risk_action = "haircut";
  event_risk_haircut_pct = pos 5000;
  event_risk_rule_id = "event_risk";
  config_version = "paper:schema1:0";
}

abbrev intent : RiskIntent
intent = record {
  instrument = " btc";
  invalidation = "daily close below 60k";
  max_loss = "250";
  leverage = pos 100;
  environment = "paper";
  halt = false;
  liquidity_verdict = none;
  event_risk = false;
  cluster_exposure_pct = some (pos 5000);
  rolling_drawdown_pct = none;
  drawdown_n = 0;
}

abbrev thin : RiskIntent
thin = record intent { liquidity_verdict = some "untradeable_at_size" }

abbrev halved : RiskIntent
halved = record thin { rolling_drawdown_pct = some (negsuc 899); drawdown_n = 5 }

allows : (evaluate intent repo paper_config none).decision ≡ allow
unfolding evaluate evaluate_exposure evaluate_market norm strip upper blank_or_placeholder
allows = refl

evaluate-allow-IsCleared_example : IsCleared intent repo paper_config none
evaluate-allow-IsCleared_example = evaluate-allow-IsCleared intent repo paper_config none allows

thin-IsUntradeable : IsUntradeable thin paper_config
unfolding strip upper
thin-IsUntradeable = record { verdict = refl; action = refl }

halved_allows : (evaluate halved repo paper_config none).decision ≡ allow
unfolding evaluate evaluate_exposure evaluate_market evaluate_drawdown abs norm strip upper
    blank_or_placeholder
halved_allows = refl

halved-IsUntradeable : IsUntradeable halved paper_config
unfolding strip upper
halved-IsUntradeable = record { verdict = refl; action = refl }
