-- ===== src/Backtest/Strategies.antt =====
-- packages/backtest/src/mm_backtest/strategy.py: the strategies that the harness can run.
use market_memory.Prelude.{◌&&◌, not, none, some, if◌then◌else◌}
use market_memory.Backtest.Views.{last}
use market_memory.Backtest.Replay.{Decimals, Strategy, is_zero}

module _ {D : Type 0} (n : Decimals D) where
  -- `BuyHoldStrategy.on_bar`
  unfoldable pub buy_hold : D → Strategy D
  buy_hold qty view position = elim (last view) [
    | none ↦ none
    | some bar ↦
        if not (is_zero n position) then none else some (record { side = "buy"; qty = qty })
  ]

  -- `ThresholdStrategy.on_bar`
  unfoldable pub threshold : D → D → Strategy D
  threshold limit qty view position = elim (last view) [
    | none ↦ none
    | some bar ↦
        if not (n.less bar.close limit) && is_zero n position
        then some (record { side = "buy"; qty = qty })
        else if n.less bar.close limit && n.less (n.of_nat 0) position
        then some (record { side = "sell"; qty = position })
        else none
  ]
