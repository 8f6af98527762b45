-- ===== src/Prelude/Members.antt =====
-- Membership in lists that loops build.
use mathlib.Core.Path.{◌≡◌, refl}
use mathlib.Core.Logic.{◌⊎◌, inl, inr}
use mathlib.Core.Bool.{Bool, true, false}
use mathlib.Core.List.{List, [], ◌∷◌, ◌++◌}
pub use mathlib.Core.List.{Memᴰ}
pub use mathlib.Core.List.Memᴰ
use native.Mathlib.Omega.{arith}
use market_memory.Prelude.Tests.{if◌then◌else◌}

module _ {ℓ} {A : Type ℓ} where
  -- An element of a list to which a loop adds under a test.
  pub kept_cases :
      (c : Bool) {a x : A} {xs : List A}
      → Memᴰ a (if c then x ∷ xs else xs)
      → ((c ≡ true) × (a ≡ x)) ⊎ Memᴰ a xs
  kept_cases true m = elim (Memᴰ.cases_cons m) [ inl e ↦ inl (refl, e) | inr t ↦ inr t ]
  kept_cases false m = inr m

  pub kept_head :
      (c : Bool) {a x : A} (xs : List A) → c ≡ true → a ≡ x → Memᴰ a (if c then x ∷ xs else xs)
  kept_head true xs h e = Memᴰ.head e
  kept_head false xs h e = ground arith

  pub kept_tail :
      (c : Bool) {a : A} (x : A) {xs : List A} → Memᴰ a xs → Memᴰ a (if c then x ∷ xs else xs)
  kept_tail true x m = Memᴰ.tail m
  kept_tail false x m = m

  -- An element of a list at whose end a loop adds.
  pub added_cases : {a x : A} (xs : List A) → Memᴰ a (xs ++ x ∷ []) → Memᴰ a xs ⊎ (a ≡ x)
  added_cases xs m = elim (Memᴰ.append_cases xs m) [
    | inl h ↦ inl h
    | inr l ↦ inr (Memᴰ.eq_of_singleton l)
  ]

  pub added_last : {a x : A} (xs : List A) → a ≡ x → Memᴰ a (xs ++ x ∷ [])
  added_last xs e = Memᴰ.append_right xs (Memᴰ.head e)

  pub if_cases :
      (c : Bool) {a : A} {xs ys : List A} → Memᴰ a (if c then xs else ys) → Memᴰ a xs ⊎ Memᴰ a ys
  if_cases true m = inl m
  if_cases false m = inr m
