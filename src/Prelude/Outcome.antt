-- ===== src/Prelude/Outcome.antt =====
-- A call that returns or raises, the error a value of the caller's type.
use native.Mathlib.Omega.{arith}
use Prim.Native.String.{String}
use mathlib.Core.Path.{◌≡◌, refl}
use mathlib.Core.Logic.{◌⊎◌, inl, inr}
use mathlib.Core.Bool.{Bool, true, false}
use mathlib.Core.Option.{Option, none, some}

pub data Result (E V : Type 0) : Type 0 where
  err : E → Result E V
  ok : V → Result E V

-- `if c: raise e`
abbrev pub raise_if : {E : Type 0} → Bool → E → Result E (Unit {0})
raise_if false problem = ok tt
raise_if true problem = err problem

abbrev pub or_raise : {E V : Type 0} → Option V → E → Result E V
or_raise (some v) problem = ok v
or_raise none problem = err problem

infixl 5 ◌>>◌ ◌>>=◌
abbrev pub ◌>>=◌ : {E V W : Type 0} → Result E V → (V → Result E W) → Result E W
err problem >>= next = err problem
ok v >>= next = next v

abbrev pub ◌>>◌ : {E W : Type 0} → Result E (Unit {0}) → Result E W → Result E W
err problem >> next = err problem
ok tt >> next = next

-- An `Optional[str]` is true when it is there and not empty.
abbrev pub truthy : Option String → Bool
truthy none = false
truthy (some String.[]) = false
truthy (some (String.◌∷◌ _ _)) = true

-- `value or default`, for a text.
abbrev pub or_default : String → String → String
or_default String.[] d = d
or_default (String.◌∷◌ c s) d = String.◌∷◌ c s

pub Result-cases :
    {E V : Type 0} (r : Result E V) → ((problem : E) × (r ≡ err problem)) ⊎ ((v : V) × (r ≡ ok v))
Result-cases (ok v) = inr (v, refl)
Result-cases (err problem) = inl (problem, refl)

pub ok_injective : {E V : Type 0} {x y : V} → ◌≡◌ {A = Result E V} (ok x) (ok y) → x ≡ y
ok_injective h = ground arith
