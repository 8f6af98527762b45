-- ===== src/Prelude/Dict.antt =====
-- A Python dict keyed by texts, in insertion order.
use mathlib.Core.Path.{◌≡◌, refl}
use mathlib.Core.Bool.{false}
use mathlib.Core.Option.{Option, none, some}
use mathlib.Core.List.{List, [], ◌∷◌}
use Prim.Native.String.{String}
use native.Mathlib.Omega.{arith}
use text.Mathlib.Text.{◌==◌ as str_eq}
use text.Mathlib.TextEquality.{eq_iff}
use market_memory.Prelude.Tests.{if◌then◌else◌}

abbrev pub Dict {ℓ} : Type ℓ → Type ℓ
Dict V = List (String × V)

-- `d.get(key)`
unfoldable pub lookup {ℓ} : {V : Type ℓ} → String → Dict V → Option V
lookup key [] = none
lookup key ((old, value) ∷ rest) = if str_eq old key then some value else lookup key rest

-- `d[key] = value`
unfoldable pub insert {ℓ} : {V : Type ℓ} → String → V → Dict V → Dict V
insert key value [] = (key, value) ∷ []
insert key value ((old, w) ∷ rest) =
    if str_eq old key then (old, value) ∷ rest else (old, w) ∷ insert key value rest

pub lookup-insert {ℓ} :
    {V : Type ℓ} (key asked : String) (value : V) (d : Dict V)
    → lookup asked (insert key value d) ≡ (if str_eq key asked then some value else lookup asked d)
unfolding lookup insert
lookup-insert key asked value [] = refl
lookup-insert key asked value ((old, w) ∷ rest) =
    ground (
      arith,
      eq_iff key asked,
      eq_iff old key,
      eq_iff old asked,
      lookup-insert key asked value rest,
    )

module _ {ℓ} {V : Type ℓ} (key : String) (value : V) (d : Dict V) where
  pub lookup-insert_self : lookup key (insert key value d) ≡ some value
  lookup-insert_self = rw (lookup-insert key key value d, (eq_iff key key).1 refl) refl

  pub lookup-insert_ne :
      (asked : String)
      → str_eq asked key ≡ false
      → lookup asked (insert key value d) ≡ lookup asked d
  lookup-insert_ne asked h =
      ground (arith, lookup-insert key asked value d, eq_iff key asked, eq_iff asked key)
