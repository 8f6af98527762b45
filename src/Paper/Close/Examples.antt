-- ===== src/Paper/Close/Examples.antt =====
-- Closing trades, with whole numbers for Decimal.
use market_memory.Paper.Close.Again.{closed_once}
use market_memory.Paper.Close.Laws.{close_paper_trade-IsClose, IsClose}
use market_memory.Research.Markdown.{set_field, Document, FieldLine}
use Prim.Native.Nat.{◌/◌}
use market_memory.Prelude.{
  norm, truthy, none, some, List, [], ◌∷◌, String, ok, err, ◌≡◌, refl, true, strip,
}
use market_memory.Prelude.Int.{ℤ, pos, pos_part, ltb_ℤ, ◌+ℤ◌, ◌-ℤ◌, ◌*ℤ◌}
use market_memory.Paper.Close.{
  fill_closed, exit_marks, exit_fills, closed_with, exit_slippage, given_decimal, closed_record,
  sole, open_trades, choose_trade, check_close, Platform, TradeRecord, CloseRequest, already_closed,
  close_paper_trade,
}

abbrev platform : Platform ℤ
platform = record {
  numbers = record {
    of_nat = pos;
    add = λ a b. a +ℤ b;
    sub = λ a b. a -ℤ b;
    mul = λ a b. a *ℤ b;
    div = λ a b. pos (pos_part a / pos_part b);
    less = ltb_ℤ;
  };
  decimal = λ text. some (pos 100);
  isoformat = λ t. "2026-01-01";
}

abbrev trade_of : String → String → TradeRecord ℤ
trade_of id status = record {
  id = id;
  thesis_slug = "THESIS-1";
  thesis_id = none;
  instrument = "BTC";
  size = "2";
  side = "long";
  invalidation = "below 90";
  max_loss = "100 USD";
  max_loss_amount = pos 100;
  opened_at = 5;
  closed_at = none;
  status = status;
  expected_path = [];
  realised_path = [];
  fills = [];
  marks = [];
  pnl = none;
  slippage_bps = none;
  exit_reason = none;
  notes = "";
  entry_thesis_snapshot_hash = "abc";
}

abbrev line : String → FieldLine
line name = record { label = name; value = "" }

abbrev template : Document
template =
    line "Thesis id"
    ∷ line "Entry thesis snapshot hash"
    ∷ line "Opened at"
    ∷ line "Closed at"
    ∷ line "Instrument"
    ∷ line "Size"
    ∷ line "Max loss"
    ∷ line "Invalidation"
    ∷ []

-- Two trades, of which one is open.
abbrev trades : List (TradeRecord ℤ)
trades = trade_of "T-1" "closed" ∷ trade_of "T-2" "open" ∷ []

abbrev close_open : CloseRequest
close_open = record {
  trade_id = none;
  exit_reason = " target ";
  pnl = none;
  slippage_bps = none;
  fill_price = some "100";
  mark_price = none;
  notes = "";
  closed_at = 9;
}

abbrev again : CloseRequest
again = record close_open { trade_id = some "T-2" }

abbrev closed_trade : TradeRecord ℤ
closed_trade = record (trade_of "T-2" "closed") {
  closed_at = some 9;
  exit_reason = some "target";
  realised_path = "exit:target@2026-01-01" ∷ [];
  fills =
      record { as_of = 9; side = "sell"; qty = "2"; price = "100"; mark = none; note = "exit" }
      ∷ [];
}

closes : (close_paper_trade platform template close_open trades).0 ≡ ok closed_trade
unfolding close_paper_trade check_close strip choose_trade open_trades sole closed_record
    given_decimal exit_slippage closed_with exit_fills exit_marks fill_closed set_field norm
closes = refl

close_paper_trade-IsClose_example :
    IsClose close_open trades (close_paper_trade platform template close_open trades).1 closed_trade
close_paper_trade-IsClose_example =
    close_paper_trade-IsClose platform template close_open trades closed_trade closes

has_reason : truthy (some (strip again.exit_reason)) ≡ true
unfolding strip
has_reason = refl

closed_once_example :
    (close_paper_trade platform template again
      (close_paper_trade platform template close_open trades).1).0
    ≡ err (already_closed "T-2")
closed_once_example =
    closed_once platform template close_open again trades closed_trade closes refl refl has_reason
