-- ===== src/Delivery/Dedupe/Examples.antt =====
-- A store that forgets after ten seconds.
use market_memory.Prelude.{ℕ, ◌≡◌, refl, true, false, none, List, [], ◌∷◌}
use market_memory.Delivery.Dedupe.{no_path}
use market_memory.Delivery.Dedupe.Runs.{
  Call, note, ask, answers, expected, in_order, new_store, answers-new_refine,
}

abbrev calls : List (ℕ × Call)
calls = (5, note "k") ∷ (9, ask "k") ∷ (9, ask "l") ∷ (15, ask "k") ∷ (16, ask "k") ∷ []

calls-in_order : in_order 0 calls ≡ true
unfolding in_order
calls-in_order = refl

answers-new_refine_example : answers calls (new_store 10 no_path) ≡ expected 10 calls (λ _. none)
answers-new_refine_example = answers-new_refine calls 10 no_path calls-in_order

expected-calls : expected 10 calls (λ _. none) ≡ true ∷ false ∷ true ∷ false ∷ []
unfolding expected
expected-calls = refl
