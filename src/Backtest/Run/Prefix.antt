-- ===== src/Backtest/Run/Prefix.antt =====
-- A replay only adds to its fills and its equity points.

use market_memory.Backtest.Replay.Clock.{replay_clock-split}
use market_memory.Backtest.Run.LookAhead.{no_look_ahead, SameUpTo, until}
use market_memory.Backtest.Run.{RunArgs, run_loop}
use mathlib.Core.Path.{subst}
use market_memory.Prelude.{
  String, Option-cases, ◌⊎◌, true, ok_injective, ℕ, Option, none, some, List, [], ◌∷◌, ◌++◌, ◌≡◌,
  refl, sym, ap, ◌∙◌, arith, ok, Result-cases, Bool-cases, inl, inr,
}
use mathlib.Core.List.{append-nil, append_assoc}
use market_memory.Backtest.Views.{last, view_at, KnowledgeFact, View, Bar}
use market_memory.Backtest.Replay.{
  replay_clock, relevant, Strategy, replay, on_view, Signal, Decimals, Setup, Book, Fill,
  EquityPoint, trade, filled, marked, apply_slippage,
}

module _ {D : Type 0} where
  -- The second book has the fills and the points of the first, and then more.
  pub record Extends (b c : Book D) : Type 0 where
    pub later_fills : List (Fill D)
    pub later_points : List (EquityPoint D)
    pub fills : c.fills ≡ b.fills ++ later_fills
    pub curve : c.curve ≡ b.curve ++ later_points

  Extends-refl : (b : Book D) → Extends b b
  Extends-refl b = record {
    later_fills = [];
    later_points = [];
    fills = sym (append-nil b.fills);
    curve = sym (append-nil b.curve);
  }

  Extends-trans : (a b c : Book D) → Extends a b → Extends b c → Extends a c
  Extends-trans a b c e f = record {
    later_fills = e.later_fills ++ f.later_fills;
    later_points = e.later_points ++ f.later_points;
    fills = f.fills ∙ ap (λ x. x ++ f.later_fills) e.fills ∙ append_assoc a.fills _ _;
    curve = f.curve ∙ ap (λ x. x ++ f.later_points) e.curve ∙ append_assoc a.curve _ _;
  }

  Extends-filled : (n : Decimals D) (b : Book D) (f : Fill D) → Extends b (filled n b f)
  Extends-filled n b f = record {
    later_fills = f ∷ [];
    later_points = [];
    fills = refl;
    curve = sym (append-nil b.curve);
  }

  Extends-marked :
      (n : Decimals D) (t : ℕ) (bar : Bar D) (b : Book D) → Extends b (marked n t bar b)
  Extends-marked n t bar b = record {
    later_fills = [];
    later_points = _;
    fills = sym (append-nil b.fills);
    curve = refl;
  }

  -- What a trade does: nothing, or a fill at the slipped price, of a positive quantity.
  pub record IsFill (s : Setup D) (t : ℕ) (bar : Bar D) (f : Fill D) : Type 0 where
    pub at : f.as_of ≡ t
    pub positive : s.numbers.less (s.numbers.of_nat 0) f.qty ≡ true
    pub priced : apply_slippage s.numbers bar.close f.side s.slippage_bps ≡ ok f.price
    pub mark : f.mark ≡ bar.close

  pub trade_cases :
      (s : Setup D) (t : ℕ) (bar : Bar D) (signal : Option (Signal D)) (b c : Book D)
      → trade s t bar signal b ≡ ok c
      → (b ≡ c) ⊎ ((f : Fill D) × IsFill s t bar f × (filled s.numbers b f ≡ c))
  unfolding trade
  trade_cases s t bar none b c h = inl (ok_injective h)
  trade_cases s t bar (some signal) b c h =
      elim (Bool-cases (s.numbers.less (s.numbers.of_nat 0) signal.qty)) [
        | inr q ↦ ground arith
        | inl q ↦
            elim (Result-cases (apply_slippage s.numbers bar.close signal.side s.slippage_bps)) [
              | inl (p, e) ↦ ground arith
              | inr (price, e) ↦
                  let f : Fill D = record {
                    as_of = t;
                    side = signal.side;
                    qty = signal.qty;
                    price = price;
                    slippage_bps = s.slippage_bps;
                    mark = bar.close;
                  } in
                  inr (
                    f,
                    record { at = refl; positive = q; priced = e; mark = refl },
                    ok_injective (sym (rw (q, e) refl) ∙ h),
                  )
            ]
      ]

  -- What a view does: nothing, or a trade and an equity point.
  pub on_view_cases :
      (s : Setup D) (v : View D) (b c : Book D)
      → on_view s v b ≡ ok c
      → (b ≡ c)
        ⊎ ((bar : Bar D) × (d : Book D) × (trade s v.as_of bar (s.strategy v b.position) b ≡ ok d)
            × (marked s.numbers v.as_of bar d ≡ c))
  unfolding on_view
  on_view_cases s v b c h = elim (Option-cases (last v)) [
    | inl e ↦ inl (ok_injective (sym (rw (on_view, e) refl) ∙ h))
    | inr (bar, e) ↦ elim (Result-cases (trade s v.as_of bar (s.strategy v b.position) b)) [
      | inl (p, f) ↦ ground arith
      | inr (d, f) ↦ inr (bar, d, f, ok_injective (sym (rw (on_view, e, f) refl) ∙ h))
    ]
  ]

  trade-Extends :
      (s : Setup D) (t : ℕ) (bar : Bar D) (signal : Option (Signal D)) (b c : Book D)
      → trade s t bar signal b ≡ ok c
      → Extends b c
  trade-Extends s t bar signal b c h = elim (trade_cases s t bar signal b c h) [
    | inl e ↦ subst (Extends b) e (Extends-refl b)
    | inr (f, i, e) ↦ subst (Extends b) e (Extends-filled s.numbers b f)
  ]

  on_view-Extends : (s : Setup D) (v : View D) (b c : Book D) → on_view s v b ≡ ok c → Extends b c
  on_view-Extends s v b c h = elim (on_view_cases s v b c h) [
    | inl e ↦ subst (Extends b) e (Extends-refl b)
    | inr (bar, d, g, e) ↦
        Extends-trans b d c (trade-Extends s v.as_of bar _ b d g)
          (subst (Extends d) e (Extends-marked s.numbers v.as_of bar d))
  ]

  replay-Extends :
      (s : Setup D) (bars : List (Bar D)) (facts : List KnowledgeFact) (ts : List ℕ) (b c : Book D)
      → replay s bars facts ts b ≡ ok c
      → Extends b c
  unfolding replay
  replay-Extends s bars facts [] b c h = subst (Extends b) (ok_injective h) (Extends-refl b)
  replay-Extends s bars facts (t ∷ ts) b c h =
      elim (Result-cases (on_view s (view_at t s.instrument bars facts) b)) [
        | inl (p, e) ↦ ground arith
        | inr (d, e) ↦
            let k : replay s bars facts ts d ≡ ok c = ground arith in
            Extends-trans b d c (on_view-Extends s _ b d e) (replay-Extends s bars facts ts d c k)
      ]

  replay_parts :
      (s : Setup D) (bars : List (Bar D)) (facts : List KnowledgeFact) (ts us : List ℕ)
      (b c : Book D)
      → replay s bars facts (ts ++ us) b ≡ ok c
      → (p : Book D) × (replay s bars facts ts b ≡ ok p) × Extends p c
  unfolding replay
  replay_parts s bars facts [] us b c h = (b, refl, replay-Extends s bars facts us b c h)
  replay_parts s bars facts (t ∷ ts) us b c h =
      elim (Result-cases (on_view s (view_at t s.instrument bars facts) b)) [
        | inl (p, e) ↦ ground arith
        | inr (d, e) ↦
            let k : replay s bars facts (ts ++ us) d ≡ ok c = ground arith in
            let (p, f, x) = replay_parts s bars facts ts us d c k in (p, rw e f, x)
      ]

  abbrev pub whole : List KnowledgeFact → RunArgs D → RunArgs D
  whole facts args = record args { end = none; facts = facts }

  run_parts :
      (n : Decimals D) (strategy : Strategy D) (instrument : String) (args : RunArgs D) (end : ℕ)
      (bars : List (Bar D)) (facts : List KnowledgeFact) (c : Book D)
      → run_loop n strategy instrument bars (whole facts args) ≡ ok c
      → (p : Book D) × (run_loop n strategy instrument bars (until end facts args) ≡ ok p)
        × Extends p c
  unfolding run_loop
  run_parts n strategy instrument args end bars facts c h =
      let rows = relevant instrument bars in
      let (later, e) = replay_clock-split args.start end rows in
      replay_parts _ rows facts (replay_clock rows args.start (some end)) later _ c
        (sym (rw e refl) ∙ h)

  -- If two sets of bars and facts agree on what is known at an instant, and the loop of
  -- run_backtest without an end returns on both, then the loop up to that instant returns on the
  -- first, and the fills and equity points that it has begin those of both.
  pub no_hindsight :
      (n : Decimals D) (strategy : Strategy D) (instrument : String) (args : RunArgs D) (end : ℕ)
      (bars bars' : List (Bar D)) (facts facts' : List KnowledgeFact) (c c' : Book D)
      → SameUpTo end bars bars' facts facts'
      → run_loop n strategy instrument bars (whole facts args) ≡ ok c
      → run_loop n strategy instrument bars' (whole facts' args) ≡ ok c'
      → (p : Book D) × (run_loop n strategy instrument bars (until end facts args) ≡ ok p)
        × Extends p c
        × Extends p c'
  no_hindsight n strategy instrument args end bars bars' facts facts' c c' same h h' =
      let (p, e, x) = run_parts n strategy instrument args end bars facts c h in
      let (p', e', x') = run_parts n strategy instrument args end bars' facts' c' h' in
      let q = ok_injective (
        sym e'
        ∙ sym (no_look_ahead n strategy instrument args end bars bars' facts facts' same)
        ∙ e) in
      (p, e, x, subst (λ b. Extends b c') q x')
