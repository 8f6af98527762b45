-- ===== src/Backtest/Tests.antt =====
-- The replay on small inputs, with whole numbers for Decimal.
use Prim.Native.Nat.{◌/◌}
use market_memory.Prelude.{ℕ, none, some, List, [], ◌∷◌, ◌≡◌, ◌≢◌, refl, sym, ◌∙◌, arith, ok}
use market_memory.Prelude.Int.{ℤ, pos, pos_part, ltb_ℤ, ◌+ℤ◌, ◌-ℤ◌, ◌*ℤ◌}
use market_memory.Backtest.Views.{last_bar, last, Bar, view_at, visible_bars, visible_facts}
use market_memory.Backtest.Replay.{
  apply_slippage, trade, on_view, insert_stamp, stamps_of, keep, replay, Decimals, Strategy, Book,
  Fill, EquityPoint, replay_clock, relevant,
}
use market_memory.Backtest.Strategies.{threshold}
use market_memory.Backtest.Run.{RunArgs, BacktestResult, run_loop, run_backtest}
use market_memory.Backtest.Run.LookAhead.{SameUpTo, until}
use market_memory.Backtest.Run.Prefix.{Extends, whole, no_hindsight}
use market_memory.Backtest.Run.Audit.{IsAudited, run-IsAudited}
use market_memory.Backtest.Run.Returns.{run_backtest-returns, threshold-GivesOrders}

abbrev whole_numbers : Decimals ℤ
whole_numbers = record {
  of_nat = pos;
  add = λ a b. a +ℤ b;
  sub = λ a b. a -ℤ b;
  mul = λ a b. a *ℤ b;
  div = λ a b. pos (pos_part a / pos_part b);
  less = ltb_ℤ;
}

abbrev bar_at : ℕ → ℕ → Bar ℤ
bar_at t price = record {
  instrument = "BTC";
  market_time = t;
  available_at = t;
  open_price = pos price;
  high = pos price;
  low = pos price;
  close = pos price;
  volume = pos 0;
  interval = "1h";
}

-- The bars of two worlds, which differ in the last one.
abbrev up : List (Bar ℤ)
up = bar_at 10 100 ∷ bar_at 20 110 ∷ bar_at 30 150 ∷ []

abbrev down : List (Bar ℤ)
down = bar_at 10 100 ∷ bar_at 20 110 ∷ bar_at 30 60 ∷ bar_at 40 50 ∷ []

abbrev run_args : RunArgs ℤ
run_args = record {
  instrument = some "BTC";
  facts = [];
  initial_cash = pos 1000;
  slippage_bps = pos 0;
  start = none;
  end = none;
}

-- Long from 105 on, flat below.
abbrev long_from_105 : Strategy ℤ
long_from_105 = threshold whole_numbers (pos 105) (pos 2)

same_until_25 : SameUpTo 25 up down [] []
unfolding visible_bars
same_until_25 = record { same_bars = refl; same_facts = refl }

abbrev bought : Fill ℤ
bought = record {
  as_of = 20;
  side = "buy";
  qty = pos 2;
  price = pos 110;
  slippage_bps = pos 0;
  mark = pos 110;
}

abbrev point : ℕ → ℕ → ℕ → ℕ → ℕ → EquityPoint ℤ
point t equity cash position mark = record {
  as_of = t;
  equity = pos equity;
  cash = pos cash;
  position = pos position;
  mark = pos mark;
}

abbrev up_book : Book ℤ
up_book = record {
  cash = pos 780;
  position = pos 2;
  fills = bought ∷ [];
  curve = point 10 1000 1000 0 100 ∷ point 20 1000 780 2 110 ∷ point 30 1080 780 2 150 ∷ [];
}

up_runs : run_loop whole_numbers long_from_105 "BTC" up (whole [] run_args) ≡ ok up_book
unfolding run_loop replay replay_clock keep stamps_of relevant insert_stamp on_view last last_bar
    view_at visible_bars trade threshold apply_slippage ◌+ℤ◌ ◌-ℤ◌ ◌*ℤ◌ visible_facts
up_runs = refl

abbrev sold : Fill ℤ
sold = record {
  as_of = 30;
  side = "sell";
  qty = pos 2;
  price = pos 60;
  slippage_bps = pos 0;
  mark = pos 60;
}

abbrev down_book : Book ℤ
down_book = record {
  cash = pos 900;
  position = pos 0;
  fills = bought ∷ sold ∷ [];
  curve =
      point 10 1000 1000 0 100
      ∷ point 20 1000 780 2 110
      ∷ point 30 900 900 0 60
      ∷ point 40 900 900 0 50
      ∷ [];
}

down_runs : run_loop whole_numbers long_from_105 "BTC" down (whole [] run_args) ≡ ok down_book
unfolding run_loop replay replay_clock keep stamps_of relevant insert_stamp on_view last last_bar
    view_at visible_bars trade threshold apply_slippage ◌+ℤ◌ ◌-ℤ◌ ◌*ℤ◌ visible_facts
down_runs = refl

no_hindsight_example :
    (p : Book ℤ) × (run_loop whole_numbers long_from_105 "BTC" up (until 25 [] run_args) ≡ ok p)
    × Extends p up_book
    × Extends p down_book
no_hindsight_example =
    no_hindsight whole_numbers long_from_105 "BTC" run_args 25 up down [] [] up_book down_book
      same_until_25 up_runs down_runs

run-IsAudited_example : IsAudited whole_numbers (pos 1000) down_book
run-IsAudited_example =
    run-IsAudited whole_numbers long_from_105 "BTC" down (whole [] run_args) down_book down_runs

up_clock : replay_clock (relevant "BTC" up) none none ≡ 10 ∷ 20 ∷ 30 ∷ []
unfolding replay_clock keep stamps_of relevant insert_stamp
up_clock = refl

up_clock-ne : replay_clock (relevant "BTC" up) none none ≢ []
up_clock-ne h = let e = sym up_clock ∙ h in ground arith

run_backtest-returns_example :
    (r : BacktestResult ℤ) × (run_backtest whole_numbers long_from_105 up run_args ≡ ok r)
run_backtest-returns_example =
    run_backtest-returns whole_numbers long_from_105 (bar_at 10 100)
      (bar_at 20 110 ∷ bar_at 30 150 ∷ []) run_args
      (threshold-GivesOrders whole_numbers (pos 105) (pos 2) refl) up_clock-ne
