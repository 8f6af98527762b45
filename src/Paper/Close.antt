-- ===== src/Paper/Close.antt =====
-- packages/paper/src/mm_paper/ledger.py: the close of a paper trade. The trades are the
-- rows of the JSON files, in the order of their names, which are the ids; an instant is a number.
pub mod Laws
pub mod Again
mod Examples
use market_memory.Prelude.{
  ℕ, Bool, true, false, not, Option, none, some, List, [], ◌∷◌, ◌++◌, String, str_eq, if◌then◌else◌,
  strip, lower, truthy, Result, ok, err, ◌>>=◌, ◌>>◌, raise_if, or_raise, is_none, ◌&&◌, ◌||◌,
}
use Prim.Native.String.{◌++◌ as append}
use market_memory.Prelude.Decimals.{Decimals, is_zero}
use market_memory.Research.Errors.{GateError}
use market_memory.Research.Markdown.{Document, set_field}
use market_memory.Paper.Trades.{
  Platform, FillRecord, MarkRecord, TradeRecord, CloseRequest, CloseError, missing_exit_reason,
  no_trades, not_one_open, unknown_trade, already_closed, invalid_pnl, invalid_decimal,
  write_failed, exit_side, stripped_or_none, text_of, is_empty, compute_slippage_bps,
}

unfoldable pub exit_marks : ℕ → CloseRequest → List MarkRecord
exit_marks now r = elim (stripped_or_none r.mark_price) [
  | none ↦ []
  | some price ↦ record { as_of = now; price = price; note = "exit mark" } ∷ []
]

joined_notes : String → String → String
joined_notes old new =
    if truthy (some (strip new)) then strip (append old (append "\n" (strip new))) else old

module _ {D : Type 0} where
  unfoldable pub find_trade : String → List (TradeRecord D) → Option (TradeRecord D)
  find_trade key [] = none
  find_trade key (t ∷ ts) = if str_eq t.id key then some t else find_trade key ts

  unfoldable pub open_trades : List (TradeRecord D) → List (TradeRecord D)
  open_trades [] = []
  open_trades (t ∷ ts) =
      let rest = open_trades ts in if str_eq t.status "open" then t ∷ rest else rest

  -- `chosen`
  unfoldable pub sole : List (TradeRecord D) → Result CloseError (TradeRecord D)
  sole [] = err not_one_open
  sole (t ∷ []) = ok t
  sole (t ∷ u ∷ ts) = err not_one_open

  unfoldable pub choose_trade :
      Option String → List (TradeRecord D) → Result CloseError (TradeRecord D)
  choose_trade none rows = sole (open_trades rows)
  choose_trade (some key) rows =
      if truthy (some key)
      then or_raise (find_trade key rows) (unknown_trade key)
      else sole (open_trades rows)

  -- `value is not None and value.strip()`, read as a decimal.
  unfoldable pub given_decimal :
      Platform D → (String → CloseError) → Option String → Option D → Result CloseError (Option D)
  given_decimal p problem none old = ok old
  given_decimal p problem (some text) old =
      if truthy (some (strip text))
      then or_raise (p.decimal (strip text)) (problem text) >>= (λ d. ok (some d))
      else ok old

  unfoldable pub exit_fills : ℕ → TradeRecord D → CloseRequest → List FillRecord
  exit_fills now t r = elim (stripped_or_none r.fill_price) [
    | none ↦ []
    | some price ↦
        record {
          as_of = now;
          side = exit_side t.side;
          qty = t.size;
          price = price;
          mark = stripped_or_none r.mark_price;
          note = "exit";
        }
        ∷ []
  ]

  read_decimal : Platform D → Option String → Result CloseError D
  read_decimal p text = or_raise (p.decimal (text_of text)) (invalid_decimal (text_of text))

  slippage_of : Platform D → TradeRecord D → CloseRequest → Result CloseError (Option D)
  unfolding read_decimal
  slippage_of p t r = do
    fill ← read_decimal p r.fill_price
    mark ← read_decimal p r.mark_price
    ok (some (compute_slippage_bps p.numbers fill mark (exit_side t.side)))

  -- The slippage of the exit, where a fill and a mark are given and none is known.
  unfoldable pub exit_slippage :
      Platform D → TradeRecord D → CloseRequest → Option D → Result CloseError (Option D)
  unfolding slippage_of
  exit_slippage p t r (some known) = ok (some known)
  exit_slippage p t r none =
      if truthy r.mark_price && truthy r.fill_price then slippage_of p t r else ok none

  -- The record that is written.
  unfoldable pub closed_with :
      Platform D → TradeRecord D → CloseRequest → Option D → Option D → TradeRecord D
  unfolding joined_notes
  closed_with p t r pnl slippage = record t {
    closed_at = some r.closed_at;
    status = "closed";
    exit_reason = some (strip r.exit_reason);
    notes = joined_notes t.notes r.notes;
    pnl = pnl;
    slippage_bps = slippage;
    fills = t.fills ++ exit_fills r.closed_at t r;
    marks = t.marks ++ exit_marks r.closed_at r;
    realised_path =
        t.realised_path
        ++ append "exit:" (append (strip r.exit_reason) (append "@" (p.isoformat r.closed_at)))
          ∷ [];
  }

  unfoldable pub closed_record :
      Platform D → TradeRecord D → CloseRequest → Result CloseError (TradeRecord D)
  closed_record p t r = do
    raise_if (str_eq t.status "closed") (already_closed t.id)
    pnl ← given_decimal p invalid_pnl r.pnl t.pnl
    known ← given_decimal p invalid_decimal r.slippage_bps t.slippage_bps
    slippage ← exit_slippage p t r known
    ok (closed_with p t r pnl slippage)

  -- The JSON file of an id is written over.
  unfoldable pub replace_trade : TradeRecord D → List (TradeRecord D) → List (TradeRecord D)
  replace_trade t [] = t ∷ []
  replace_trade t (u ∷ us) = if str_eq u.id t.id then t ∷ us else u ∷ replace_trade t us

  -- The steps of close_paper_trade up to the record.
  unfoldable pub check_close :
      Platform D → CloseRequest → List (TradeRecord D) → Result CloseError (TradeRecord D)
  check_close p r rows = do
    raise_if (not (truthy (some (strip r.exit_reason)))) missing_exit_reason
    raise_if (is_empty rows) no_trades
    chosen ← choose_trade r.trade_id rows
    closed_record p chosen r

  abbrev closed_text : Platform D → Option ℕ → String
  closed_text p none = ""
  closed_text p (some t) = p.isoformat t

  -- The fields that write_paper_artifacts sets in the template.
  unfoldable pub fill_closed : Platform D → Document → TradeRecord D → Result GateError Document
  fill_closed p template t = do
    slugged ← set_field template "Thesis id" t.thesis_slug
    hashed ← set_field slugged "Entry thesis snapshot hash" t.entry_thesis_snapshot_hash
    begun ← set_field hashed "Opened at" (p.isoformat t.opened_at)
    ended ← set_field begun "Closed at" (closed_text p t.closed_at)
    named ← set_field ended "Instrument" t.instrument
    sized ← set_field named "Size" t.size
    limited ← set_field sized "Max loss" t.max_loss
    set_field limited "Invalidation" t.invalidation

  -- `close_paper_trade`: the JSON is written after the fields of the markdown are set.
  unfoldable pub close_paper_trade :
      Platform D
      → Document
      → CloseRequest
      → List (TradeRecord D)
      → Result CloseError (TradeRecord D) × List (TradeRecord D)
  close_paper_trade p template r rows = elim (check_close p r rows) [
    | err e ↦ (err e, rows)
    | ok t ↦ elim (fill_closed p template t) [
      | err e ↦ (err (write_failed e), rows)
      | ok _ ↦ (ok t, replace_trade t rows)
    ]
  ]
