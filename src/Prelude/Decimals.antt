-- ===== src/Prelude/Decimals.antt =====
-- The operations of Python's Decimal that the program uses, as an interface.
use Prim.Native.Nat.{ℕ}
use mathlib.Core.Bool.{Bool, not, ◌&&◌}

pub record Decimals (D : Type 0) : Type 0 where
  pub of_nat : ℕ → D
  pub add : D → D → D
  pub sub : D → D → D
  pub mul : D → D → D
  pub div : D → D → D
  pub less : D → D → Bool

-- `d == 0`
abbrev pub is_zero : {D : Type 0} → Decimals D → D → Bool
is_zero n d = not (n.less d (n.of_nat 0)) && not (n.less (n.of_nat 0) d)
