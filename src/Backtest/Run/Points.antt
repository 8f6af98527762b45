-- ===== src/Backtest/Run/Points.antt =====
-- Every instant of the clock gives one equity point.
use mathlib.Core.Path.{subst}
use mathlib.Core.List.{append-nil, append_assoc}
use market_memory.Prelude.{
  Bool, ℕ, Option, some, List, [], ◌∷◌, ◌++◌, ◌≡◌, refl, sym, ap, ◌∙◌, arith, ok, ok_injective,
  Result-cases, Bool-cases, inl, inr, String, ◌⊎◌, leb, ltb, ◌==◌,
}
use market_memory.Prelude.Members.{if_cases, Memᴰ, kept_cases}
use market_memory.Prelude.Members.Memᴰ
use market_memory.Backtest.Views.{Bar, KnowledgeFact, View, view_at, visible_bars, last_bar, last}
use market_memory.Backtest.Replay.{
  Decimals, Strategy, Setup, Signal, Book, EquityPoint, replay, replay_clock, relevant, on_view,
  trade, marked, stamps_of, insert_stamp, keep, is_from, is_to,
}
use market_memory.Backtest.Run.{RunArgs, run_loop, opening}
use market_memory.Backtest.Run.Prefix.{trade_cases}

mem-insert_stamp : (t u : ℕ) (us : List ℕ) → Memᴰ t (insert_stamp u us) → (t ≡ u) ⊎ Memᴰ t us
unfolding insert_stamp
mem-insert_stamp t u [] m = Memᴰ.cases_cons m
mem-insert_stamp t u (v ∷ us) m = elim (if_cases (u == v) m) [
  | inl k ↦ inr k
  | inr k ↦ elim (if_cases (ltb u v) k) [
    | inl n ↦ Memᴰ.cases_cons n
    | inr n ↦ elim (Memᴰ.cases_cons n) [
      | inl e ↦ inr (Memᴰ.head e)
      | inr o ↦ elim (mem-insert_stamp t u us o) [ inl e ↦ inl e | inr p ↦ inr (Memᴰ.tail p) ]
    ]
  ]
]

mem-keep-list : (test : ℕ → Bool) (t : ℕ) (ts : List ℕ) → Memᴰ t (keep test ts) → Memᴰ t ts
unfolding keep
mem-keep-list test t [] m = m
mem-keep-list test t (u ∷ us) m = elim (kept_cases (test u) m) [
  | inl (h, e) ↦ Memᴰ.head e
  | inr k ↦ Memᴰ.tail (mem-keep-list test t us k)
]

module _ {D : Type 0} where
  sees_bar :
      (t : ℕ) (bars : List (Bar D))
      → Memᴰ t (stamps_of bars)
      → (bar : Bar D) × (rest : List (Bar D)) × (visible_bars bars t ≡ bar ∷ rest)
  unfolding stamps_of visible_bars
  sees_bar t [] m = absurd (Memᴰ.not-nil m)
  sees_bar t (bar ∷ bars) m = elim (Bool-cases (leb bar.available_at t)) [
    | inl h ↦ (bar, visible_bars bars t, rw h refl)
    | inr h ↦ elim (mem-insert_stamp t bar.available_at (stamps_of bars) m) [
      | inl e ↦ ground arith
      | inr k ↦ let (b, rest, f) = sees_bar t bars k in (b, rest, rw h f)
    ]
  ]

  last_bar-cons :
      (bar : Bar D) (bars : List (Bar D)) → (b : Bar D) × (last_bar (bar ∷ bars) ≡ some b)
  unfolding last_bar
  last_bar-cons bar [] = (bar, refl)
  last_bar-cons bar (next ∷ bars) = last_bar-cons next bars

  trade-curve :
      (s : Setup D) (t : ℕ) (bar : Bar D) (signal : Option (Signal D)) (b c : Book D)
      → trade s t bar signal b ≡ ok c
      → c.curve ≡ b.curve
  trade-curve s t bar signal b c h = elim (trade_cases s t bar signal b c h) [
    | inl e ↦ ap (λ (x : Book D). x.curve) (sym e)
    | inr (f, i, e) ↦ ap (λ (x : Book D). x.curve) (sym e)
  ]

  abbrev pub instants : List (EquityPoint D) → List ℕ
  instants [] = []
  instants (p ∷ ps) = p.as_of ∷ instants ps

  instants-added :
      (ps : List (EquityPoint D)) (p : EquityPoint D)
      → instants (ps ++ p ∷ []) ≡ instants ps ++ p.as_of ∷ []
  instants-added [] p = refl
  instants-added (q ∷ ps) p = ap (λ ts. q.as_of ∷ ts) (instants-added ps p)

  on_view-instants :
      (s : Setup D) (v : View D) (b c : Book D) (bar : Bar D) (rest : List (Bar D))
      → v.bars ≡ bar ∷ rest
      → on_view s v b ≡ ok c
      → instants c.curve ≡ instants b.curve ++ v.as_of ∷ []
  unfolding on_view last
  on_view-instants s v b c bar rest e h =
      let (found, f) = last_bar-cons bar rest in
      let g : last_bar v.bars ≡ some found = ap last_bar e ∙ f in
      elim (Result-cases (trade s v.as_of found (s.strategy v b.position) b)) [
        | inl (p, q) ↦ ground arith
        | inr (d, q) ↦
            let r : marked s.numbers v.as_of found d ≡ c =
              ok_injective (sym (rw (on_view, g, q) refl) ∙ h) in
            let same : d.curve ≡ b.curve = trade-curve s v.as_of found _ b d q in
            subst (λ (x : Book D). instants x.curve ≡ instants b.curve ++ v.as_of ∷ []) r
              (instants-added d.curve _ ∙ ap (λ ps. instants ps ++ v.as_of ∷ []) same)
      ]

  replay-instants :
      (s : Setup D) (bars : List (Bar D)) (facts : List KnowledgeFact) (ts : List ℕ) (b c : Book D)
      → ((t : ℕ) → Memᴰ t ts → Memᴰ t (stamps_of bars))
      → replay s bars facts ts b ≡ ok c
      → instants c.curve ≡ instants b.curve ++ ts
  unfolding replay view_at
  replay-instants s bars facts [] b c m h =
      ap (λ (x : Book D). instants x.curve) (sym (ok_injective h))
      ∙ sym (append-nil (instants b.curve))
  replay-instants s bars facts (t ∷ ts) b c m h =
      elim (Result-cases (on_view s (view_at t s.instrument bars facts) b)) [
        | inl (p, e) ↦ ground arith
        | inr (d, e) ↦
            let k : replay s bars facts ts d ≡ ok c = ground arith in
            let (bar, rest, f) = sees_bar t bars (m t (Memᴰ.head refl)) in
            replay-instants s bars facts ts d c (λ u n. m u (Memᴰ.tail n)) k
            ∙ ap (λ us. us ++ ts)
                (on_view-instants s (view_at t s.instrument bars facts) b d bar rest f e)
            ∙ append_assoc (instants b.curve) (t ∷ []) ts
      ]

  -- If the loop of run_backtest returns, then its equity points are at the instants of the clock,
  -- one at each, in its order.
  pub run-instants :
      (n : Decimals D) (strategy : Strategy D) (instrument : String) (bars : List (Bar D))
      (args : RunArgs D) (b : Book D)
      → run_loop n strategy instrument bars args ≡ ok b
      → instants b.curve ≡ replay_clock (relevant instrument bars) args.start args.end
  unfolding run_loop replay_clock
  run-instants n strategy instrument bars args b h =
      replay-instants _ (relevant instrument bars) args.facts _ (opening n args.initial_cash) b
        (λ t m. mem-keep-list (is_from args.start) t _ (mem-keep-list (is_to args.end) t _ m)) h
