-- ===== src/Prelude/Text/Laws.antt =====
-- Normalising a text twice is normalising it once.
use Prim.Native.Char.{Char, code}
use Prim.Native.String.{String}
use Prim.Native.Nat.{ℕ, zero, suc, ◌-◌}
use mathlib.Core.Path.{◌≡◌, refl, ap, ◌∙◌, sym}
use mathlib.Core.Logic.{inl, inr}
use mathlib.Core.Bool.{Bool, true, false, ◌&&◌, not}
use native.Mathlib.Omega.{arith}
use market_memory.Prelude.Tests.{if◌then◌else◌, Bool-cases}
use market_memory.Prelude.Text.{
  char_or, is_upper, is_space, lower_char, lower, lstrip, rstrip, trim_cons, is_empty, strip, norm,
}

every : (Char → Bool) → String → Bool
every p String.[] = true
every p (String.◌∷◌ c s) = p c && every p s

char_or-every :
    (p : Char → Bool) (s : String) (k : ℕ) (d : Char)
    → every p s ≡ true
    → p d ≡ true
    → p (char_or s k d) ≡ true
unfolding every char_or
char_or-every p String.[] k d h e = e
char_or-every p (String.◌∷◌ c s) zero d h e = ground arith
char_or-every p (String.◌∷◌ c s) (suc k) d h e = ground (arith, char_or-every p s k d)

-- Neither a capital nor a space.
is_plain : Char → Bool
unfolding is_upper is_space
is_plain c = not (is_upper c) && not (is_space c)

letter_plain : (k : ℕ) → is_plain (char_or "abcdefghijklmnopqrstuvwxyz" k "a") ≡ true
unfolding every is_plain
letter_plain k = char_or-every is_plain "abcdefghijklmnopqrstuvwxyz" k "a" refl refl

abbrev lowered : Char → Char
lowered c = char_or "abcdefghijklmnopqrstuvwxyz" (code c - b'A') "a"

lower_char_lem : (c : Char) → lower_char c ≡ (if is_upper c then lowered c else c)
unfolding lower_char
lower_char_lem c = refl

is_plain_parts : (c : Char) → is_plain c ≡ true → (is_upper c ≡ false) × (is_space c ≡ false)
unfolding is_plain
is_plain_parts c h = ground arith

is_upper-not-is_space : (c : Char) → is_upper c ≡ true → is_space c ≡ false
unfolding is_upper is_space
is_upper-not-is_space c h = ground arith

lowered_parts : (c : Char) → (is_upper (lowered c) ≡ false) × (is_space (lowered c) ≡ false)
lowered_parts c = is_plain_parts (lowered c) (letter_plain (code c - b'A'))

lower_char_idem : (c : Char) → lower_char (lower_char c) ≡ lower_char c
lower_char_idem c = ground (arith, lower_char_lem c, lower_char_lem (lowered c), lowered_parts c)

is_space-lower_char : (c : Char) → is_space (lower_char c) ≡ is_space c
is_space-lower_char c = ground (arith, lower_char_lem c, lowered_parts c, is_upper-not-is_space c)

lower_idem : (s : String) → lower (lower s) ≡ lower s
unfolding lower
lower_idem String.[] = refl
lower_idem (String.◌∷◌ c s) = cc (lower_char_idem c, lower_idem s)

lower-lstrip : (s : String) → lower (lstrip s) ≡ lstrip (lower s)
unfolding lower lstrip
lower-lstrip String.[] = refl
lower-lstrip (String.◌∷◌ c s) = ground (arith, is_space-lower_char c, lower-lstrip s)

is_empty-lower : (s : String) → is_empty (lower s) ≡ is_empty s
unfolding is_empty lower
is_empty-lower String.[] = refl
is_empty-lower (String.◌∷◌ c s) = refl

trim_cons_lem :
    (c : Char) (s : String)
    → trim_cons c s ≡ (if is_empty s && is_space c then String.[] else String.◌∷◌ c s)
unfolding trim_cons
trim_cons_lem c s = refl

lower-trim_cons :
    (c : Char) (s : String) → lower (trim_cons c s) ≡ trim_cons (lower_char c) (lower s)
unfolding lower is_empty trim_cons
lower-trim_cons c s = elim (Bool-cases (is_empty s && is_space c)) [
  | inl e ↦ rw (trim_cons_lem, is_empty-lower s, is_space-lower_char c, e)
  | inr e ↦ rw (trim_cons_lem, is_empty-lower s, is_space-lower_char c, e)
]

lower-rstrip : (s : String) → lower (rstrip s) ≡ rstrip (lower s)
unfolding lower rstrip
lower-rstrip String.[] = refl
lower-rstrip (String.◌∷◌ c s) =
    lower-trim_cons c (rstrip s) ∙ ap (trim_cons (lower_char c)) (lower-rstrip s)

rstrip-trim_cons : (c : Char) (s : String) → rstrip s ≡ s → rstrip (trim_cons c s) ≡ trim_cons c s
unfolding rstrip
rstrip-trim_cons c s h = ground arith

rstrip_idem : (s : String) → rstrip (rstrip s) ≡ rstrip s
unfolding rstrip
rstrip_idem String.[] = refl
rstrip_idem (String.◌∷◌ c s) = rstrip-trim_cons c (rstrip s) (rstrip_idem s)

-- Cutting the end leaves a text that begins with no space as it begins.
starts_plain : String → Bool
starts_plain String.[] = true
starts_plain (String.◌∷◌ c s) = not (is_space c)

lstrip-starts_plain : (s : String) → starts_plain (lstrip s) ≡ true
unfolding lstrip starts_plain
lstrip-starts_plain String.[] = refl
lstrip-starts_plain (String.◌∷◌ c s) = ground (arith, lstrip-starts_plain s)

rstrip-starts_plain : (s : String) → starts_plain s ≡ true → starts_plain (rstrip s) ≡ true
unfolding rstrip starts_plain
rstrip-starts_plain String.[] h = refl
rstrip-starts_plain (String.◌∷◌ c s) h = ground (arith, trim_cons_lem c (rstrip s))

lstrip_of_starts_plain : (s : String) → starts_plain s ≡ true → lstrip s ≡ s
unfolding lstrip starts_plain
lstrip_of_starts_plain String.[] h = refl
lstrip_of_starts_plain (String.◌∷◌ c s) h = ground arith

pub strip_idem : (s : String) → strip (strip s) ≡ strip s
unfolding strip
strip_idem s =
    ap rstrip (
      lstrip_of_starts_plain (rstrip (lstrip s))
        (rstrip-starts_plain (lstrip s) (lstrip-starts_plain s)))
    ∙ rstrip_idem (lstrip s)

lower-strip : (s : String) → lower (strip s) ≡ strip (lower s)
unfolding strip
lower-strip s = lower-rstrip (lstrip s) ∙ ap rstrip (lower-lstrip s)

pub norm_idem : (s : String) → norm (norm s) ≡ norm s
unfolding norm
norm_idem s =
    ap lower (sym (lower-strip (strip s)) ∙ ap lower (strip_idem s)) ∙ lower_idem (strip s)

pub norm-strip : (s : String) → norm (strip s) ≡ norm s
unfolding norm
norm-strip s = ap lower (strip_idem s)

unfoldable pub spaceless : String → Bool
spaceless String.[] = true
spaceless (String.◌∷◌ c s) = not (is_space c) && spaceless s

rstrip_of_spaceless : (s : String) → spaceless s ≡ true → rstrip s ≡ s
unfolding rstrip spaceless
rstrip_of_spaceless String.[] h = refl
rstrip_of_spaceless (String.◌∷◌ c s) h =
    ground (arith, trim_cons_lem c s, trim_cons_lem c (rstrip s), rstrip_of_spaceless s)

spaceless-starts_plain : (s : String) → spaceless s ≡ true → starts_plain s ≡ true
unfolding spaceless starts_plain
spaceless-starts_plain String.[] h = refl
spaceless-starts_plain (String.◌∷◌ c s) h = ground arith

pub strip_of_spaceless : (s : String) → spaceless s ≡ true → strip s ≡ s
unfolding strip
strip_of_spaceless s h =
    ap rstrip (lstrip_of_starts_plain s (spaceless-starts_plain s h)) ∙ rstrip_of_spaceless s h
