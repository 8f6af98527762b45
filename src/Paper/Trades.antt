-- ===== src/Paper/Trades.antt =====
-- packages/paper/src/mm_paper/models.py: the records of a paper trade, and the call that closes one.
use market_memory.Prelude.{
  false, [], ◌∷◌, none, strip, truthy, some, ◌||◌, lower, true, str_eq, if◌then◌else◌, Bool, List,
  ℕ, Option, String,
}
use market_memory.Prelude.Decimals.{is_zero, Decimals}
use market_memory.Research.Errors.{GateError}

-- What the platform gives: Decimal, its reading of a text, and isoformat.
pub record Platform (D : Type 0) : Type 0 where
  pub numbers : Decimals D
  pub decimal : String → Option D
  pub isoformat : ℕ → String

-- `FillRecord` and `MarkRecord`
pub record FillRecord : Type 0 where
  pub as_of : ℕ
  pub side : String
  pub qty : String
  pub price : String
  pub mark : Option String
  pub note : String

pub record MarkRecord : Type 0 where
  pub as_of : ℕ
  pub price : String
  pub note : String

-- `PaperTradeRecord`
pub record TradeRecord (D : Type 0) : Type 0 where
  pub id : String
  pub thesis_slug : String
  pub thesis_id : Option String
  pub instrument : String
  pub size : String
  pub side : String
  pub invalidation : String
  pub max_loss : String
  pub max_loss_amount : D
  pub opened_at : ℕ
  pub closed_at : Option ℕ
  pub status : String
  pub expected_path : List String
  pub realised_path : List String
  pub fills : List FillRecord
  pub marks : List MarkRecord
  pub pnl : Option D
  pub slippage_bps : Option D
  pub exit_reason : Option String
  pub notes : String
  pub entry_thesis_snapshot_hash : String

-- The keyword arguments of close_paper_trade, with the instant of the close.
pub record CloseRequest : Type 0 where
  pub trade_id : Option String
  pub exit_reason : String
  pub pnl : Option String
  pub slippage_bps : Option String
  pub fill_price : Option String
  pub mark_price : Option String
  pub notes : String
  pub closed_at : ℕ

pub data CloseError : Type 0 where
  missing_exit_reason no_trades not_one_open : CloseError
  unknown_trade already_closed invalid_pnl invalid_decimal : String → CloseError
  write_failed : GateError → CloseError

abbrev pub is_long : String → Bool
is_long side = str_eq (lower side) "buy" || str_eq (lower side) "long"

abbrev pub exit_side : String → String
exit_side side = if is_long side then "sell" else "buy"

abbrev pub stripped_or_none : Option String → Option String
stripped_or_none none = none
stripped_or_none (some t) = if truthy (some t) then some (strip t) else none

abbrev pub text_of : Option String → String
text_of none = ""
text_of (some t) = t

abbrev pub is_empty : {A : Type 0} → List A → Bool
is_empty [] = true
is_empty (_ ∷ _) = false

module _ {D : Type 0} where
  -- `compute_slippage_bps`
  unfoldable pub compute_slippage_bps : Decimals D → D → D → String → D
  compute_slippage_bps n fill mark side =
      if is_zero n mark
      then n.of_nat 0
      else if is_long side
      then n.mul (n.div (n.sub fill mark) mark) (n.of_nat 10000)
      else n.mul (n.div (n.sub mark fill) mark) (n.of_nat 10000)
