-- ===== src/Backtest/Run/Returns.antt =====
-- A run of a strategy whose signals are well formed returns.
use mathlib.Core.Path.{subst}
use market_memory.Prelude.{
  List-cases, ◌&&◌, not, eq_iff, ℕ, Option, Option-cases, none, some, List, [], ◌∷◌, ◌≡◌, ◌≢◌, refl,
  sym, ap, ◌∙◌, arith, Result, ok, err, Result-cases, Bool-cases, inl, inr, String, ◌⊎◌, true,
}
use market_memory.Backtest.Views.{Bar, KnowledgeFact, View, view_at, last}
use market_memory.Backtest.Replay.{
  keep, stamps_of, marked, is_zero, Decimals, Strategy, Setup, Signal, Book, replay, replay_clock,
  relevant, on_view, trade, apply_slippage,
}
use market_memory.Backtest.Run.{
  setup_of, RunArgs, BacktestResult, run_loop, run_backtest, result_of, named,
}
use market_memory.Backtest.Run.Points.{instants, run-instants}
use market_memory.Backtest.Strategies.{threshold}

err-ne_ok : {E V : Type 0} {p : E} {v : V} → ◌≢◌ {A = Result E V} (err p) (ok v)
err-ne_ok h = ground arith

some_injective : {A : Type 0} {x y : A} → some x ≡ some y → x ≡ y
some_injective h = ground arith

module _ {D : Type 0} (n : Decimals D) where
  -- A signal of a positive quantity, to buy or to sell.
  pub record IsOrder (signal : Signal D) : Type 0 where
    pub positive : n.less (n.of_nat 0) signal.qty ≡ true
    pub sided : (signal.side ≡ "buy") ⊎ (signal.side ≡ "sell")

  pub GivesOrders : Strategy D → Type 0
  GivesOrders strategy =
      (v : View D) (position : D) (signal : Signal D)
      → strategy v position ≡ some signal
      → IsOrder signal

  apply_slippage-returns :
      (price slip : D) (side : String)
      → (side ≡ "buy") ⊎ (side ≡ "sell")
      → (p : D) × (apply_slippage n price side slip ≡ ok p)
  unfolding apply_slippage
  apply_slippage-returns price slip side k =
      elim (Result-cases (apply_slippage n price side slip)) [
        | inl (p, e) ↦ ground (arith, eq_iff side "buy", eq_iff side "sell")
        | inr r ↦ r
      ]

  buys : (qty : D) → Signal D
  buys qty = record { side = "buy"; qty = qty }

  buys-IsOrder : (qty : D) → n.less (n.of_nat 0) qty ≡ true → IsOrder (buys qty)
  unfolding buys
  buys-IsOrder qty h = record { positive = h; sided = inl refl }

  pub threshold-GivesOrders :
      (limit qty : D) → n.less (n.of_nat 0) qty ≡ true → GivesOrders (threshold n limit qty)
  unfolding threshold GivesOrders buys
  threshold-GivesOrders limit qty h v position signal e = elim (Option-cases (last v)) [
    | inl l ↦ ground arith
    | inr (bar, l) ↦ elim (Bool-cases (not (n.less bar.close limit) && is_zero n position)) [
      | inl b ↦
          let q : buys qty ≡ signal = some_injective (sym (rw (threshold, l, b) refl) ∙ e) in
          subst IsOrder q (buys-IsOrder qty h)
      | inr b ↦ elim (Bool-cases (n.less bar.close limit && n.less (n.of_nat 0) position)) [
        | inl c ↦
            let q : ◌≡◌ {A = Signal D} (record { side = "sell"; qty = position }) signal =
              some_injective (sym (rw (threshold, l, b, c) refl) ∙ e) in
            subst IsOrder q (record { positive = ground arith; sided = inr refl })
        | inr c ↦ ground arith
      ]
    ]
  ]

module _ {D : Type 0} (s : Setup D) where
  trade-returns :
      (t : ℕ) (bar : Bar D) (signal : Option (Signal D)) (b : Book D)
      → ((o : Signal D) → signal ≡ some o → IsOrder s.numbers o)
      → (c : Book D) × (trade s t bar signal b ≡ ok c)
  unfolding trade
  trade-returns t bar none b g = (b, refl)
  trade-returns t bar (some signal) b g =
      let o = g signal refl in
      let (price, f) =
        apply_slippage-returns s.numbers bar.close s.slippage_bps signal.side o.sided in
      elim (Result-cases (trade s t bar (some signal) b)) [
        | inr r ↦ r
        | inl (p, e) ↦ let q = o.positive in ground arith
      ]

  on_view-returns :
      (v : View D) (b : Book D)
      → GivesOrders s.numbers s.strategy
      → (c : Book D) × (on_view s v b ≡ ok c)
  unfolding on_view GivesOrders
  on_view-returns v b g = elim (Option-cases (last v)) [
    | inl e ↦ (b, rw (on_view, e) refl)
    | inr (bar, e) ↦
        let (d, f) = trade-returns v.as_of bar (s.strategy v b.position) b (g v b.position) in
        (marked s.numbers v.as_of bar d, rw (on_view, e, f) refl)
  ]

  replay-returns :
      (bars : List (Bar D)) (facts : List KnowledgeFact) (ts : List ℕ) (b : Book D)
      → GivesOrders s.numbers s.strategy
      → (c : Book D) × (replay s bars facts ts b ≡ ok c)
  unfolding replay
  replay-returns bars facts [] b g = (b, refl)
  replay-returns bars facts (t ∷ ts) b g =
      let (d, e) = on_view-returns (view_at t s.instrument bars facts) b g in
      let (c, f) = replay-returns bars facts ts d g in (c, rw e f)

module _ {D : Type 0} (n : Decimals D) where
  result_of-returns :
      (instrument : String) (initial : D) (b : Book D)
      → instants b.curve ≢ []
      → (r : BacktestResult D) × (result_of n instrument initial b ≡ ok r)
  unfolding result_of
  result_of-returns instrument initial b h = elim (List-cases b.curve) [
    | inl e ↦ absurd (h (ap instants e))
    | inr (p, ps, e) ↦ elim (Result-cases (result_of n instrument initial b)) [
      | inr r ↦ r
      | inl (q, f) ↦ ground arith
    ]
  ]

  run_loop-returns :
      (strategy : Strategy D) (instrument : String) (bars : List (Bar D)) (args : RunArgs D)
      → GivesOrders n strategy
      → (b : Book D) × (run_loop n strategy instrument bars args ≡ ok b)
  unfolding run_loop
  run_loop-returns strategy instrument bars args g =
      replay-returns (setup_of n strategy instrument args) (relevant instrument bars) args.facts _ _
        g

  run_backtest-ok :
      (strategy : Strategy D) (bar q : Bar D) (bars qs : List (Bar D)) (args : RunArgs D)
      (b : Book D) (r : BacktestResult D)
      → relevant (named n args.instrument bar) (bar ∷ bars) ≡ q ∷ qs
      → run_loop n strategy (named n args.instrument bar) (bar ∷ bars) args ≡ ok b
      → result_of n (named n args.instrument bar) args.initial_cash b ≡ ok r
      → run_backtest n strategy (bar ∷ bars) args ≡ ok r
  unfolding run_backtest
  run_backtest-ok strategy bar q bars qs args b r e f k = rw (run_backtest, e, f) k

  clock-nil : (start end : Option ℕ) → replay_clock {D = D} [] start end ≡ []
  unfolding replay_clock stamps_of keep
  clock-nil start end = refl

  -- If a strategy gives only signals of a positive quantity, to buy or to sell, and the clock of
  -- the bars of the instrument is not empty, then run_backtest returns a result.
  pub run_backtest-returns :
      (strategy : Strategy D) (bar : Bar D) (bars : List (Bar D)) (args : RunArgs D)
      → GivesOrders n strategy
      → replay_clock (relevant (named n args.instrument bar) (bar ∷ bars)) args.start args.end ≢ []
      → (r : BacktestResult D) × (run_backtest n strategy (bar ∷ bars) args ≡ ok r)
  run_backtest-returns strategy bar bars args g h =
      let instrument = named n args.instrument bar in
      let rows = bar ∷ bars in
      elim (List-cases (relevant instrument rows)) [
        | inl e ↦
            absurd
              (h (ap (λ bs. replay_clock bs args.start args.end) e ∙ clock-nil args.start args.end))
        | inr (q, qs, e) ↦
            let (b, f) = run_loop-returns strategy instrument rows args g in
            let i = run-instants n strategy instrument rows args b f in
            let (r, k) = result_of-returns instrument args.initial_cash b (λ z. h (sym i ∙ z)) in
            (r, run_backtest-ok strategy bar q bars qs args b r e f k)
      ]
