-- ===== src/Prelude/Text.antt =====
-- Python's `str.strip`, `str.lower` and `str.upper`, on ASCII text: the program's keys, statuses,
-- roles and placeholders are ASCII.
pub mod Laws
use Prim.Native.Char.{Char, code}
use Prim.Native.String.{String}
use Prim.Native.Nat.{ℕ, zero, suc, ◌-◌}
use mathlib.Core.Path.{◌≡◌, refl}
use mathlib.Core.Bool.{Bool, true, false, ◌&&◌, ◌||◌}
use text.Mathlib.Text.{starts_with}
use market_memory.Prelude.Tests.{leb, ◌==◌, if◌then◌else◌}

-- The `k`-th character, or `d` past the end.
char_or : String → ℕ → Char → Char
char_or String.[] k d = d
char_or (String.◌∷◌ c s) zero d = c
char_or (String.◌∷◌ c s) (suc k) d = char_or s k d

abbrev between : ℕ → ℕ → ℕ → Bool
between lo hi n = leb lo n && leb n hi

is_upper : Char → Bool
is_upper c = between b'A' b'Z' (code c)

is_lower : Char → Bool
is_lower c = between b'a' b'z' (code c)

-- Space, and the controls from tab to carriage return and from 28 to 31.
unfoldable pub is_space : Char → Bool
is_space c = code c == b' ' || between 9 13 (code c) || between 28 31 (code c)

lower_char : Char → Char
unfolding is_upper char_or
lower_char c = if is_upper c then char_or "abcdefghijklmnopqrstuvwxyz" (code c - b'A') "a" else c

upper_char : Char → Char
unfolding is_lower char_or
upper_char c = if is_lower c then char_or "ABCDEFGHIJKLMNOPQRSTUVWXYZ" (code c - b'a') "A" else c

unfoldable pub lower : String → String
unfolding lower_char
lower String.[] = String.[]
lower (String.◌∷◌ c s) = String.◌∷◌ (lower_char c) (lower s)

unfoldable pub upper : String → String
unfolding upper_char
upper String.[] = String.[]
upper (String.◌∷◌ c s) = String.◌∷◌ (upper_char c) (upper s)

lstrip : String → String
unfolding is_space
lstrip String.[] = String.[]
lstrip (String.◌∷◌ c s) = let rest = lstrip s in if is_space c then rest else String.◌∷◌ c s

is_empty : String → Bool
is_empty String.[] = true
is_empty (String.◌∷◌ _ _) = false

trim_cons : Char → String → String
unfolding is_space is_empty
trim_cons c s = if is_empty s && is_space c then String.[] else String.◌∷◌ c s

rstrip : String → String
unfolding trim_cons
rstrip String.[] = String.[]
rstrip (String.◌∷◌ c s) = trim_cons c (rstrip s)

unfoldable pub strip : String → String
unfolding lstrip rstrip
strip s = rstrip (lstrip s)

-- `value.strip().lower()`.
unfoldable pub norm : String → String
unfolding strip lower
norm s = lower (strip s)

norm_mixed : norm "  In_Skeptic\n" ≡ "in_skeptic"
unfolding norm
norm_mixed = refl

-- `needle in text`
unfoldable pub contains : String → String → Bool
contains needle String.[] = starts_with String.[] needle
contains needle (String.◌∷◌ c s) = starts_with (String.◌∷◌ c s) needle || contains needle s
