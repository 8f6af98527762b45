-- ===== src/Backtest/Run.antt =====
-- packages/backtest/src/mm_backtest/harness.py: a run, from its bars to its metrics. The hashes and
-- the texts of the numbers are left out.
pub mod LookAhead
pub mod Prefix
pub mod Audit
pub mod Points
pub mod Returns
use market_memory.Prelude.{
  ◌>>=◌, ◌&&◌, ℕ, Bool, not, Option, none, some, List, [], ◌∷◌, String, if◌then◌else◌, Result, ok,
  err,
}
use market_memory.Backtest.Views.{Bar, KnowledgeFact}
use market_memory.Backtest.Replay.{
  is_zero, Decimals, Strategy, Fill, EquityPoint, BacktestError, no_bars, no_points, no_bars_for,
  Book, Setup, relevant, replay, replay_clock,
}

-- The keyword arguments of run_backtest.
pub record RunArgs (D : Type 0) : Type 0 where
  pub instrument : Option String
  pub facts : List KnowledgeFact
  pub initial_cash : D
  pub slippage_bps : D
  pub start : Option ℕ
  pub end : Option ℕ

-- `BacktestResult`
pub record BacktestResult (D : Type 0) : Type 0 where
  pub instrument : String
  pub fills : List (Fill D)
  pub equity_curve : List (EquityPoint D)
  pub total_return : D
  pub max_drawdown : D
  pub final_equity : D
  pub final_position : D
  pub final_cash : D

module _ {D : Type 0} (n : Decimals D) where
  unfoldable pub last_point : EquityPoint D → List (EquityPoint D) → EquityPoint D
  last_point p [] = p
  last_point p (q ∷ qs) = last_point q qs

  -- The loop over the curve, with its peak and its greatest drawdown.
  unfoldable pub max_drawdown_from : D → D → List (EquityPoint D) → D
  max_drawdown_from peak max_dd [] = max_dd
  max_drawdown_from peak max_dd (p ∷ ps) =
      let top = if n.less peak p.equity then p.equity else peak in
      let dd = n.div (n.sub top p.equity) top in
      let deeper = if n.less (n.of_nat 0) top && n.less max_dd dd then dd else max_dd in
      max_drawdown_from top deeper ps

  unfoldable pub result_of : String → D → Book D → Result BacktestError (BacktestResult D)
  result_of instrument initial b = elim b.curve [
    | [] ↦ err no_points
    | p ∷ ps ↦
        let final = (last_point p ps).equity in
        ok (record {
          instrument = instrument;
          fills = b.fills;
          equity_curve = p ∷ ps;
          total_return =
              if is_zero n initial then n.of_nat 0 else n.sub (n.div final initial) (n.of_nat 1);
          max_drawdown = max_drawdown_from p.equity (n.of_nat 0) (p ∷ ps);
          final_equity = final;
          final_position = b.position;
          final_cash = b.cash;
        })
  ]

  abbrev pub opening : D → Book D
  opening cash = record { cash = cash; position = n.of_nat 0; fills = []; curve = [] }

  abbrev pub setup_of : Strategy D → String → RunArgs D → Setup D
  setup_of strategy instrument args = record {
    numbers = n;
    strategy = strategy;
    instrument = instrument;
    slippage_bps = args.slippage_bps;
  }

  -- The loop of run_backtest, over the bars of the instrument.
  unfoldable pub run_loop :
      Strategy D → String → List (Bar D) → RunArgs D → Result BacktestError (Book D)
  run_loop strategy instrument bars args =
      let rows = relevant instrument bars in
      replay (setup_of strategy instrument args) rows args.facts
        (replay_clock rows args.start args.end) (opening args.initial_cash)

  abbrev pub named : Option String → Bar D → String
  named none bar = bar.instrument
  named (some String.[]) bar = bar.instrument
  named (some (String.◌∷◌ c s)) bar = String.◌∷◌ c s

  -- `run_backtest`
  unfoldable pub run_backtest :
      Strategy D → List (Bar D) → RunArgs D → Result BacktestError (BacktestResult D)
  run_backtest strategy [] args = err no_bars
  run_backtest strategy (bar ∷ bars) args =
      let instrument = named args.instrument bar in
      elim (relevant instrument (bar ∷ bars)) [
        | [] ↦ err (no_bars_for instrument)
        | _ ∷ _ ↦
            run_loop strategy instrument (bar ∷ bars) args
            >>= result_of instrument args.initial_cash
      ]
