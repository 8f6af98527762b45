-- ===== src/Backtest/Views/Laws.antt =====
-- What a view shows.
use market_memory.Prelude.{ℕ, ◌≤◌, List, [], ◌∷◌, ◌≡◌, refl, sym, ap, ◌∙◌, arith}
use market_memory.Backtest.Views.{Bar, KnowledgeFact, visible_bars, visible_facts}

module _ {D : Type 0} where
  -- What is known at an instant is read off what is known at a later one.
  visible_bars_idem :
      (t end : ℕ) (bars : List (Bar D))
      → t ≤ end
      → visible_bars (visible_bars bars end) t ≡ visible_bars bars t
  unfolding visible_bars
  visible_bars_idem t end [] h = refl
  visible_bars_idem t end (bar ∷ bars) h = ground (arith, visible_bars_idem t end bars h)

  pub same_visible_bars :
      (t end : ℕ) (bars bars' : List (Bar D))
      → t ≤ end
      → visible_bars bars end ≡ visible_bars bars' end
      → visible_bars bars t ≡ visible_bars bars' t
  same_visible_bars t end bars bars' h e =
      sym (visible_bars_idem t end bars h)
      ∙ ap (λ bs. visible_bars bs t) e
      ∙ visible_bars_idem t end bars' h

visible_facts_idem :
    (t end : ℕ) (facts : List KnowledgeFact)
    → t ≤ end
    → visible_facts (visible_facts facts end) t ≡ visible_facts facts t
unfolding visible_facts
visible_facts_idem t end [] h = refl
visible_facts_idem t end (fact ∷ facts) h = ground (arith, visible_facts_idem t end facts h)

pub same_visible_facts :
    (t end : ℕ) (facts facts' : List KnowledgeFact)
    → t ≤ end
    → visible_facts facts end ≡ visible_facts facts' end
    → visible_facts facts t ≡ visible_facts facts' t
same_visible_facts t end facts facts' h e =
    sym (visible_facts_idem t end facts h)
    ∙ ap (λ fs. visible_facts fs t) e
    ∙ visible_facts_idem t end facts' h
