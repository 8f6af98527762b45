-- ===== src/Backtest/Run/LookAhead.antt =====
-- A replay up to an instant depends only on what is known then.
use market_memory.Prelude.{
  ℕ, ◌≤◌, some, List, [], ◌∷◌, ◌≡◌, refl, sym, ap, ◌∙◌, arith, Result-cases, inl, inr, String,
}
use market_memory.Prelude.Members.{Memᴰ}
use market_memory.Backtest.Views.{Bar, KnowledgeFact, view_at, visible_bars, visible_facts}
use market_memory.Backtest.Views.Laws.{same_visible_bars, same_visible_facts}
use market_memory.Backtest.Replay.{
  Decimals, Strategy, Setup, Book, replay, replay_clock, relevant, stamps_of, keep, is_from,
  on_view,
}
use market_memory.Backtest.Replay.Clock.{replay_clock-visible, replay_clock-le}
use market_memory.Backtest.Run.{RunArgs, run_loop}

module _ {D : Type 0} where
  visible_bars-relevant :
      (instrument : String) (t : ℕ) (bars : List (Bar D))
      → visible_bars (relevant instrument bars) t ≡ relevant instrument (visible_bars bars t)
  unfolding visible_bars relevant
  visible_bars-relevant instrument t [] = refl
  visible_bars-relevant instrument t (bar ∷ bars) =
      ground (arith, visible_bars-relevant instrument t bars)

  -- Two sets of bars and facts that agree on what is known at an instant.
  pub record SameUpTo (end : ℕ) (bars bars' : List (Bar D)) (facts facts' : List KnowledgeFact)
      : Type 0 where
    pub same_bars : visible_bars bars end ≡ visible_bars bars' end
    pub same_facts : visible_facts facts end ≡ visible_facts facts' end

  relevant-SameUpTo :
      (instrument : String) (end : ℕ) (bars bars' : List (Bar D))
      (facts facts' : List KnowledgeFact)
      → SameUpTo end bars bars' facts facts'
      → SameUpTo end (relevant instrument bars) (relevant instrument bars') facts facts'
  relevant-SameUpTo instrument end bars bars' facts facts' h = record {
    same_bars =
        visible_bars-relevant instrument end bars
        ∙ ap (relevant instrument) h.same_bars
        ∙ sym (visible_bars-relevant instrument end bars');
    same_facts = h.same_facts;
  }

  same_view :
      (instrument : String) (t end : ℕ) (bars bars' : List (Bar D))
      (facts facts' : List KnowledgeFact)
      → t ≤ end
      → SameUpTo end bars bars' facts facts'
      → view_at t instrument bars facts ≡ view_at t instrument bars' facts'
  unfolding view_at
  same_view instrument t end bars bars' facts facts' l h =
      rw
        (
          same_visible_bars t end bars bars' l h.same_bars,
          same_visible_facts t end facts facts' l h.same_facts,
        )
        refl

  same_replay :
      (s : Setup D) (end : ℕ) (bars bars' : List (Bar D)) (facts facts' : List KnowledgeFact)
      (ts : List ℕ) (b : Book D)
      → ((t : ℕ) → Memᴰ t ts → t ≤ end)
      → SameUpTo end bars bars' facts facts'
      → replay s bars facts ts b ≡ replay s bars' facts' ts b
  unfolding replay
  same_replay s end bars bars' facts facts' [] b l h = refl
  same_replay s end bars bars' facts facts' (t ∷ ts) b l h =
      let e = same_view s.instrument t end bars bars' facts facts' (l t (Memᴰ.head refl)) h in
      elim (Result-cases (on_view s (view_at t s.instrument bars' facts') b)) [
        | inl (p, f) ↦ rw (e, f) refl
        | inr (c, f) ↦
            rw (e, f) (same_replay s end bars bars' facts facts' ts c (λ u m. l u (Memᴰ.tail m)) h)
      ]

  abbrev pub until : ℕ → List KnowledgeFact → RunArgs D → RunArgs D
  until end facts args = record args { end = some end; facts = facts }

  -- If two sets of bars and facts agree on what is known at an instant, then the loop of
  -- run_backtest up to that instant ends alike on both: in the same error, or with the same cash,
  -- position, fills and equity points.
  pub no_look_ahead :
      (n : Decimals D) (strategy : Strategy D) (instrument : String) (args : RunArgs D) (end : ℕ)
      (bars bars' : List (Bar D)) (facts facts' : List KnowledgeFact)
      → SameUpTo end bars bars' facts facts'
      → run_loop n strategy instrument bars (until end facts args)
        ≡ run_loop n strategy instrument bars' (until end facts' args)
  unfolding run_loop
  no_look_ahead n strategy instrument args end bars bars' facts facts' h =
      let rows = relevant instrument bars in
      let rows' = relevant instrument bars' in
      let r = relevant-SameUpTo instrument end bars bars' facts facts' h in
      let clock =
        replay_clock-visible args.start end rows
        ∙ ap (λ bs. keep (is_from args.start) (stamps_of bs)) r.same_bars
        ∙ sym (replay_clock-visible args.start end rows') in
      rw clock (
        same_replay _ end rows rows' facts facts' (replay_clock rows' args.start (some end)) _
          (λ t m. replay_clock-le args.start end t rows' m) r)
