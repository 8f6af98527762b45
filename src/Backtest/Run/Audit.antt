-- ===== src/Backtest/Run/Audit.antt =====
-- The cash and the position of a run are those of its fills.
use market_memory.Prelude.{ok_injective}
use mathlib.Core.Path.{subst}
use market_memory.Prelude.{
  ℕ, List, [], ◌∷◌, ◌++◌, ◌≡◌, refl, sym, ap, ◌∙◌, arith, ok, Result-cases, inl, inr, String, ◌⊎◌,
  true, str_eq, eq_iff, if◌then◌else◌,
}
use market_memory.Prelude.Members.{Memᴰ, added_cases}
use market_memory.Prelude.Members.Memᴰ
use market_memory.Backtest.Views.{Bar, KnowledgeFact, View, view_at}
use market_memory.Backtest.Replay.{
  Decimals, Strategy, Setup, Book, Fill, replay, relevant, on_view, filled, apply_slippage,
}
use market_memory.Backtest.Run.{RunArgs, run_loop, opening}
use market_memory.Backtest.Run.Prefix.{IsFill, trade_cases, on_view_cases}

module _ {D : Type 0} where
  -- The cash that is left of a sum after fills, and the position that they make.
  abbrev pub cash_step : Decimals D → D → Fill D → D
  cash_step n cash f =
      if str_eq f.side "buy"
      then n.sub cash (n.mul f.price f.qty)
      else n.add cash (n.mul f.price f.qty)

  abbrev pub cash_after : Decimals D → D → List (Fill D) → D
  cash_after n cash [] = cash
  cash_after n cash (f ∷ fs) = cash_after n (cash_step n cash f) fs

  abbrev pub position_step : Decimals D → D → Fill D → D
  position_step n position f =
      if str_eq f.side "buy" then n.add position f.qty else n.sub position f.qty

  abbrev pub position_after : Decimals D → D → List (Fill D) → D
  position_after n position [] = position
  position_after n position (f ∷ fs) = position_after n (position_step n position f) fs

  cash_after-added :
      (n : Decimals D) (cash : D) (fs : List (Fill D)) (f : Fill D)
      → cash_after n cash (fs ++ f ∷ []) ≡ cash_after n (cash_after n cash fs) (f ∷ [])
  cash_after-added n cash [] f = refl
  cash_after-added n cash (g ∷ fs) f = cash_after-added n (cash_step n cash g) fs f

  position_after-added :
      (n : Decimals D) (position : D) (fs : List (Fill D)) (f : Fill D)
      → position_after n position (fs ++ f ∷ [])
        ≡ position_after n (position_after n position fs) (f ∷ [])
  position_after-added n position [] f = refl
  position_after-added n position (g ∷ fs) f =
      position_after-added n (position_step n position g) fs f

  -- The books that the fills account for, each of a positive quantity, bought or sold.
  pub record IsAudited (n : Decimals D) (initial : D) (b : Book D) : Type 0 where
    pub cash : b.cash ≡ cash_after n initial b.fills
    pub position : b.position ≡ position_after n (n.of_nat 0) b.fills
    pub positive : (f : Fill D) → Memᴰ f b.fills → n.less (n.of_nat 0) f.qty ≡ true
    pub sided : (f : Fill D) → Memᴰ f b.fills → (f.side ≡ "buy") ⊎ (f.side ≡ "sell")

  apply_slippage-sided :
      (n : Decimals D) (price slip : D) (side : String) (p : D)
      → apply_slippage n price side slip ≡ ok p
      → (side ≡ "buy") ⊎ (side ≡ "sell")
  unfolding apply_slippage
  apply_slippage-sided n price slip side p h = ground (arith, eq_iff side "buy", eq_iff side "sell")

  filled-IsAudited :
      (s : Setup D) (initial : D) (t : ℕ) (bar : Bar D) (b : Book D) (f : Fill D)
      → IsFill s t bar f
      → IsAudited s.numbers initial b
      → IsAudited s.numbers initial (filled s.numbers b f)
  filled-IsAudited s initial t bar b f i a = record {
    cash =
        ap (λ c. cash_after s.numbers c (f ∷ [])) a.cash
        ∙ sym (cash_after-added s.numbers initial b.fills f);
    position =
        ap (λ p. position_after s.numbers p (f ∷ [])) a.position
        ∙ sym (position_after-added s.numbers _ b.fills f);
    positive =
        λ g m. elim (added_cases b.fills m) [ inl k ↦ a.positive g k | inr e ↦ rw e i.positive ];
    sided = λ g m. elim (added_cases b.fills m) [
      | inl k ↦ a.sided g k
      | inr e ↦
          rw e (apply_slippage-sided s.numbers bar.close s.slippage_bps f.side f.price i.priced)
    ];
  }

  on_view-IsAudited :
      (s : Setup D) (initial : D) (v : View D) (b c : Book D)
      → IsAudited s.numbers initial b
      → on_view s v b ≡ ok c
      → IsAudited s.numbers initial c
  on_view-IsAudited s initial v b c a h = elim (on_view_cases s v b c h) [
    | inl e ↦ subst (IsAudited s.numbers initial) e a
    | inr (bar, d, g, e) ↦
        let after : IsAudited s.numbers initial d = elim (trade_cases s v.as_of bar _ b d g) [
          | inl f ↦ subst (IsAudited s.numbers initial) f a
          | inr (f, i, q) ↦
              subst (IsAudited s.numbers initial) q (filled-IsAudited s initial v.as_of bar b f i a)
        ] in
        subst (IsAudited s.numbers initial) e (record {
          cash = after.cash;
          position = after.position;
          positive = after.positive;
          sided = after.sided;
        })
  ]

  replay-IsAudited :
      (s : Setup D) (initial : D) (bars : List (Bar D)) (facts : List KnowledgeFact) (ts : List ℕ)
      (b c : Book D)
      → IsAudited s.numbers initial b
      → replay s bars facts ts b ≡ ok c
      → IsAudited s.numbers initial c
  unfolding replay
  replay-IsAudited s initial bars facts [] b c a h =
      subst (IsAudited s.numbers initial) (ok_injective h) a
  replay-IsAudited s initial bars facts (t ∷ ts) b c a h =
      elim (Result-cases (on_view s (view_at t s.instrument bars facts) b)) [
        | inl (p, e) ↦ ground arith
        | inr (d, e) ↦
            let k : replay s bars facts ts d ≡ ok c = ground arith in
            replay-IsAudited s initial bars facts ts d c (on_view-IsAudited s initial _ b d a e) k
      ]

  -- If the loop of run_backtest returns, then its cash is the initial cash less what the bought
  -- fills cost and with what the sold ones brought, its position is what they add up to, and every
  -- fill is of a positive quantity and is a buy or a sell.
  pub run-IsAudited :
      (n : Decimals D) (strategy : Strategy D) (instrument : String) (bars : List (Bar D))
      (args : RunArgs D) (b : Book D)
      → run_loop n strategy instrument bars args ≡ ok b
      → IsAudited n args.initial_cash b
  unfolding run_loop
  run-IsAudited n strategy instrument bars args b h =
      replay-IsAudited _ args.initial_cash (relevant instrument bars) args.facts _
        (opening n args.initial_cash) b
        (record {
          cash = refl;
          position = refl;
          positive = λ f m. absurd (Memᴰ.not-nil m);
          sided = λ f m. absurd (Memᴰ.not-nil m);
        })
        h
