-- ===== src/Backtest/Replay.antt =====
-- packages/backtest/src/mm_backtest/harness.py: the replay of a strategy over the clock of the
-- bars. Decimal's operations are a parameter, and so is the strategy, a function of the view and
-- of the position.
pub mod Clock
pub use market_memory.Prelude.Decimals.{Decimals, is_zero}
use market_memory.Prelude.{
  ◌&&◌, ℕ, Bool, true, false, not, Option, none, some, List, [], ◌∷◌, ◌++◌, String, leb, ◌==◌, ltb,
  if◌then◌else◌, Result, ok, err, raise_if, ◌>>=◌, ◌>>◌, str_eq,
}
use market_memory.Backtest.Views.{Bar, KnowledgeFact, View, view_at, last}

pub record Signal (D : Type 0) : Type 0 where
  pub side : String
  pub qty : D

-- `Strategy.on_bar`
abbrev pub Strategy : Type 0 → Type 0
Strategy D = View D → D → Option (Signal D)

pub record Fill (D : Type 0) : Type 0 where
  pub as_of : ℕ
  pub side : String
  pub qty : D
  pub price : D
  pub slippage_bps : D
  pub mark : D

pub record EquityPoint (D : Type 0) : Type 0 where
  pub as_of : ℕ
  pub equity : D
  pub cash : D
  pub position : D
  pub mark : D

pub data BacktestError : Type 0 where
  no_bars qty_not_positive no_points : BacktestError
  no_bars_for unknown_side : String → BacktestError

-- `sorted` of a set of instants.
unfoldable pub insert_stamp : ℕ → List ℕ → List ℕ
insert_stamp t [] = t ∷ []
insert_stamp t (u ∷ us) =
    let rest = insert_stamp t us in
    if t == u then u ∷ us else if ltb t u then t ∷ u ∷ us else u ∷ rest

unfoldable pub stamps_of : {D : Type 0} → List (Bar D) → List ℕ
stamps_of [] = []
stamps_of (bar ∷ bars) = insert_stamp bar.available_at (stamps_of bars)

-- `ts >= start`, where there is a start, and `ts <= end`.
abbrev pub is_from : Option ℕ → ℕ → Bool
is_from none t = true
is_from (some start) t = leb start t

abbrev pub is_to : Option ℕ → ℕ → Bool
is_to none t = true
is_to (some end) t = leb t end

unfoldable pub keep : (ℕ → Bool) → List ℕ → List ℕ
keep test [] = []
keep test (t ∷ ts) = let rest = keep test ts in if test t then t ∷ rest else rest

-- `replay_clock`
unfoldable pub replay_clock : {D : Type 0} → List (Bar D) → Option ℕ → Option ℕ → List ℕ
replay_clock bars start end = keep (is_to end) (keep (is_from start) (stamps_of bars))

-- The bars of an instrument.
unfoldable pub relevant : {D : Type 0} → String → List (Bar D) → List (Bar D)
relevant instrument [] = []
relevant instrument (bar ∷ bars) =
    let rest = relevant instrument bars in
    if str_eq bar.instrument instrument then bar ∷ rest else rest

-- The variables of the loop.
pub record Book (D : Type 0) : Type 0 where
  pub cash : D
  pub position : D
  pub fills : List (Fill D)
  pub curve : List (EquityPoint D)

-- What the loop reads.
pub record Setup (D : Type 0) : Type 0 where
  pub numbers : Decimals D
  pub strategy : Strategy D
  pub instrument : String
  pub slippage_bps : D

module _ {D : Type 0} where
  -- `apply_slippage`
  unfoldable pub apply_slippage : Decimals D → D → String → D → Result BacktestError D
  apply_slippage n price side slippage_bps =
      let bps = n.div slippage_bps (n.of_nat 10000) in
      if str_eq side "buy"
      then ok (n.mul price (n.add (n.of_nat 1) bps))
      else if str_eq side "sell"
      then ok (n.mul price (n.sub (n.of_nat 1) bps))
      else err (unknown_side side)

  abbrev pub filled : Decimals D → Book D → Fill D → Book D
  filled n b f = record {
    cash =
        if str_eq f.side "buy"
        then n.sub b.cash (n.mul f.price f.qty)
        else n.add b.cash (n.mul f.price f.qty);
    position = if str_eq f.side "buy" then n.add b.position f.qty else n.sub b.position f.qty;
    fills = b.fills ++ f ∷ [];
    curve = b.curve;
  }

  -- The part of the loop's body for a signal.
  unfoldable pub trade :
      Setup D → ℕ → Bar D → Option (Signal D) → Book D → Result BacktestError (Book D)
  trade s as_of bar none b = ok b
  trade s as_of bar (some signal) b = do
    raise_if (not (s.numbers.less (s.numbers.of_nat 0) signal.qty)) qty_not_positive
    price ← apply_slippage s.numbers bar.close signal.side s.slippage_bps
    ok (
        filled s.numbers b (record {
          as_of = as_of;
          side = signal.side;
          qty = signal.qty;
          price = price;
          slippage_bps = s.slippage_bps;
          mark = bar.close;
        }))

  abbrev pub marked : Decimals D → ℕ → Bar D → Book D → Book D
  marked n as_of bar b = record {
    cash = b.cash;
    position = b.position;
    fills = b.fills;
    curve =
        b.curve
        ++ record {
          as_of = as_of;
          equity = n.add b.cash (n.mul b.position bar.close);
          cash = b.cash;
          position = b.position;
          mark = bar.close;
        }
          ∷ [];
  }

  -- The loop's body, on the view of the instant.
  unfoldable pub on_view : Setup D → View D → Book D → Result BacktestError (Book D)
  on_view s view b = elim (last view) [
    | none ↦ ok b
    | some bar ↦
        trade s view.as_of bar (s.strategy view b.position) b
        >>= (λ c. ok (marked s.numbers view.as_of bar c))
  ]

  unfoldable pub replay :
      Setup D → List (Bar D) → List KnowledgeFact → List ℕ → Book D → Result BacktestError (Book D)
  replay s bars facts [] b = ok b
  replay s bars facts (t ∷ ts) b =
      on_view s (view_at t s.instrument bars facts) b >>= (λ c. replay s bars facts ts c)
