-- ===== src/Risk/Drawdown.antt =====
-- packages/risk/src/mm_risk/drawdown.py: the drawdown ladder. Percentages are in hundredths, and
-- so is the size multiplier.
use market_memory.Prelude.{
  ◌≤◌, ℕ, Bool, ◌&&◌, Option, none, some, String, leb, if◌then◌else◌, arith,
}
use market_memory.Prelude.Int.{ℤ, leb_ℤ, ◌≤ℤ◌, abs}

pub record DrawdownConfig : Type 0 where
  pub sleeve_half_pct : ℤ
  pub dry_review_pct : ℤ
  pub n_equals_1_noop : Bool
  pub rule_id_half : String
  pub rule_id_dry : String

pub data Action : Type 0 where
  no_action sleeve_half dry_review : Action

pub record DrawdownDecision : Type 0 where
  pub action : Action
  pub rule_id : Option String
  pub size_mult : ℕ

abbrev unchanged : DrawdownDecision
unchanged = record { action = no_action; rule_id = none; size_mult = 100 }

-- `evaluate_drawdown`
unfoldable pub evaluate_drawdown : Option ℤ → ℕ → DrawdownConfig → DrawdownDecision
evaluate_drawdown none n c = unchanged
evaluate_drawdown (some rolling) n c =
    let dd = abs rolling in
    if c.n_equals_1_noop && leb n 1
    then unchanged
    else if leb_ℤ c.dry_review_pct dd
    then record { action = dry_review; rule_id = some c.rule_id_dry; size_mult = 0 }
    else if leb_ℤ c.sleeve_half_pct dd
    then record { action = sleeve_half; rule_id = some c.rule_id_half; size_mult = 50 }
    else unchanged

-- If the half threshold is at most the dry one and one drawdown is at least as deep as another,
-- then over equally many points it leaves no larger size.
pub evaluate_drawdown_mono :
    (a b : ℤ) (n : ℕ) (c : DrawdownConfig)
    → c.sleeve_half_pct ≤ℤ c.dry_review_pct
    → abs a ≤ℤ abs b
    → (evaluate_drawdown (some b) n c).size_mult ≤ (evaluate_drawdown (some a) n c).size_mult
unfolding evaluate_drawdown
evaluate_drawdown_mono a b n c h d = ground arith
