-- ===== src/Paper/Close/Again.antt =====
-- A closed trade is not closed again.
use market_memory.Prelude.{
  true, Option, some, List, [], ◌∷◌, String, eq_iff, strip, truthy, ok, err, ◌≡◌, refl, ap, ◌∙◌,
  arith,
}
use market_memory.Research.Markdown.{Document}
use market_memory.Paper.Close.{
  Platform, TradeRecord, CloseRequest, CloseError, already_closed, find_trade, choose_trade,
  closed_record, check_close, close_paper_trade,
}
use market_memory.Paper.Close.Laws.{find-replace, close_paper_trade-IsClose}

module _ {D : Type 0} where
  closed_refused :
      (p : Platform D) (r : CloseRequest) (t : TradeRecord D)
      → t.status ≡ "closed"
      → closed_record p t r ≡ err (already_closed t.id)
  unfolding closed_record
  closed_refused p r t s = let q = (eq_iff t.status "closed").1 s in rw (closed_record, q) refl

  choose_found :
      (id : Option String) (key : String) (rows : List (TradeRecord D)) (t : TradeRecord D)
      → id ≡ some key
      → truthy (some key) ≡ true
      → find_trade key rows ≡ some t
      → choose_trade id rows ≡ ok t
  unfolding choose_trade
  choose_found id key rows t k n f = rw k (rw (n, f) refl)

  check_refused :
      (p : Platform D) (r : CloseRequest) (key : String) (rows : List (TradeRecord D))
      (t : TradeRecord D) (e : CloseError)
      → truthy (some (strip r.exit_reason)) ≡ true
      → find_trade key rows ≡ some t
      → choose_trade r.trade_id rows ≡ ok t
      → closed_record p t r ≡ err e
      → check_close p r rows ≡ err e
  unfolding check_close find_trade
  check_refused p r key [] t e w f c d = ground arith
  check_refused p r key (u ∷ us) t e w f c d = rw (w, c) d

  refused_again :
      (p : Platform D) (template : Document) (r : CloseRequest) (rows : List (TradeRecord D))
      (t : TradeRecord D)
      → find_trade t.id rows ≡ some t
      → t.status ≡ "closed"
      → truthy (some t.id) ≡ true
      → r.trade_id ≡ some t.id
      → truthy (some (strip r.exit_reason)) ≡ true
      → (close_paper_trade p template r rows).0 ≡ err (already_closed t.id)
  unfolding close_paper_trade
  refused_again p template r rows t f s n k w =
      let c = choose_found r.trade_id t.id rows t k n f in
      let e = check_refused p r t.id rows t (already_closed t.id) w f c (closed_refused p r t s) in
      rw (close_paper_trade, e) refl

  -- If a trade with an id is closed, then closing the trade of that id again, for a reason that is
  -- not blank, raises that it is already closed.
  pub closed_once :
      (p : Platform D) (template : Document) (r again : CloseRequest) (rows : List (TradeRecord D))
      (t : TradeRecord D)
      → (close_paper_trade p template r rows).0 ≡ ok t
      → truthy (some t.id) ≡ true
      → again.trade_id ≡ some t.id
      → truthy (some (strip again.exit_reason)) ≡ true
      → (close_paper_trade p template again (close_paper_trade p template r rows).1).0
        ≡ err (already_closed t.id)
  closed_once p template r again rows t h n k w =
      let i = close_paper_trade-IsClose p template r rows t h in
      let f : find_trade t.id (close_paper_trade p template r rows).1 ≡ some t =
        ap (find_trade t.id) i.only_it ∙ find-replace t rows in
      refused_again p template again _ t f i.closing.closed n k w
