-- ===== src/Paper/Close/Laws.antt =====
-- What a close does to the trades.
use mathlib.Core.Path.{subst}
use market_memory.Prelude.{
  Bool-cases, Result-cases, true, false, Option, none, some, List, [], ◌∷◌, String, str_eq, eq_iff,
  strip, truthy, ok, err, ◌≡◌, ◌≢◌, refl, sym, ap, ◌∙◌, inl, inr, ◌⊎◌, arith,
}
use market_memory.Prelude.Members.{Memᴰ, kept_cases}
use market_memory.Research.Markdown.{Document}
use market_memory.Paper.Close.{
  closed_with, invalid_decimal, invalid_pnl, Platform, TradeRecord, CloseRequest, CloseError,
  find_trade, open_trades, sole, choose_trade, closed_record, replace_trade, check_close,
  close_paper_trade, fill_closed, given_decimal, exit_slippage,
}

closed-ne : (status : String) → str_eq status "closed" ≡ false → status ≢ "closed"
closed-ne status h e = let q = (eq_iff status "closed").1 e in ground arith

module _ {D : Type 0} where
  find_trade-Memᴰ :
      (key : String) (rows : List (TradeRecord D)) (t : TradeRecord D)
      → find_trade key rows ≡ some t
      → Memᴰ t rows × (t.id ≡ key)
  unfolding find_trade
  find_trade-Memᴰ key [] t h = ground arith
  find_trade-Memᴰ key (u ∷ us) t h = elim (Bool-cases (str_eq u.id key)) [
    | inl e ↦
        let q : u ≡ t = ground arith in
        (Memᴰ.head (sym q), ap (λ (x : TradeRecord D). x.id) (sym q) ∙ (eq_iff u.id key).0 e)
    | inr e ↦ let (m, i) = find_trade-Memᴰ key us t (ground arith) in (Memᴰ.tail m, i)
  ]

  pub find-replace :
      (t : TradeRecord D) (rows : List (TradeRecord D))
      → find_trade t.id (replace_trade t rows) ≡ some t
  unfolding find_trade replace_trade
  find-replace t [] = ground (arith, eq_iff t.id t.id)
  find-replace t (u ∷ us) = ground (arith, eq_iff t.id t.id, find-replace t us)

  -- What a close makes of an open trade.
  pub record IsClosing (r : CloseRequest) (old t : TradeRecord D) : Type 0 where
    pub was_open : old.status ≢ "closed"
    pub same_id : t.id ≡ old.id
    pub same_terms :
        (t.size ≡ old.size) × (t.invalidation ≡ old.invalidation) × (t.max_loss ≡ old.max_loss)
    pub closed : t.status ≡ "closed"
    pub at : t.closed_at ≡ some r.closed_at
    pub reason : t.exit_reason ≡ some (strip r.exit_reason)

  with-IsClosing :
      (p : Platform D) (old : TradeRecord D) (r : CloseRequest) (pnl slippage : Option D)
      → old.status ≢ "closed"
      → IsClosing r old (closed_with p old r pnl slippage)
  unfolding closed_with
  with-IsClosing p old r pnl slippage n = record {
    was_open = n;
    same_id = refl;
    same_terms = (refl, refl, refl);
    closed = refl;
    at = refl;
    reason = refl;
  }

  closed_record-IsClosing :
      (p : Platform D) (old : TradeRecord D) (r : CloseRequest) (t : TradeRecord D)
      → closed_record p old r ≡ ok t
      → IsClosing r old t
  unfolding closed_record
  closed_record-IsClosing p old r t h = elim (Bool-cases (str_eq old.status "closed")) [
    | inl e ↦ ground arith
    | inr e ↦ elim (Result-cases (given_decimal p invalid_pnl r.pnl old.pnl)) [
      | inl (q, f) ↦ ground arith
      | inr (pnl, f) ↦
          elim (Result-cases (given_decimal p invalid_decimal r.slippage_bps old.slippage_bps)) [
            | inl (q, g) ↦ ground arith
            | inr (known, g) ↦ elim (Result-cases (exit_slippage p old r known)) [
              | inl (q, k) ↦ ground arith
              | inr (slippage, k) ↦
                  let u : closed_with p old r pnl slippage ≡ t = ground arith in
                  subst (IsClosing r old) u
                    (with-IsClosing p old r pnl slippage (closed-ne old.status e))
            ]
          ]
    ]
  ]

  sole_cases : (rows : List (TradeRecord D)) (t : TradeRecord D) → sole rows ≡ ok t → rows ≡ t ∷ []
  unfolding sole
  sole_cases [] t h = ground arith
  sole_cases (u ∷ []) t h = ground arith
  sole_cases (u ∷ v ∷ us) t h = ground arith

  mem-open_trades :
      (t : TradeRecord D) (rows : List (TradeRecord D)) → Memᴰ t (open_trades rows) → Memᴰ t rows
  unfolding open_trades
  mem-open_trades t [] m = m
  mem-open_trades t (u ∷ us) m = elim (kept_cases (str_eq u.status "open") m) [
    | inl (h, e) ↦ Memᴰ.head e
    | inr k ↦ Memᴰ.tail (mem-open_trades t us k)
  ]

  -- The trade that is asked for, or else the only one that is open.
  pub IsChosen : CloseRequest → List (TradeRecord D) → TradeRecord D → Type 0
  IsChosen r rows t =
      ((key : String) × (r.trade_id ≡ some key) × (t.id ≡ key)) ⊎ (open_trades rows ≡ t ∷ [])

  sole-IsChosen :
      (r : CloseRequest) (rows : List (TradeRecord D)) (t : TradeRecord D)
      → sole (open_trades rows) ≡ ok t
      → Memᴰ t rows × IsChosen r rows t
  unfolding IsChosen
  sole-IsChosen r rows t h =
      let e = sole_cases (open_trades rows) t h in
      (mem-open_trades t rows (rw e (Memᴰ.head refl)), inr e)

  choose_trade-IsChosen :
      (r : CloseRequest) (id : Option String) (rows : List (TradeRecord D)) (t : TradeRecord D)
      → r.trade_id ≡ id
      → choose_trade id rows ≡ ok t
      → Memᴰ t rows × IsChosen r rows t
  unfolding choose_trade IsChosen
  choose_trade-IsChosen r none rows t e h = sole-IsChosen r rows t h
  choose_trade-IsChosen r (some key) rows t e h = elim (Bool-cases (truthy (some key))) [
    | inr n ↦ sole-IsChosen r rows t (ground arith)
    | inl n ↦ let (m, i) = find_trade-Memᴰ key rows t (ground arith) in (m, inl (key, e, i))
  ]

  -- What a close that returns has done.
  pub record IsClose (r : CloseRequest) (rows rows' : List (TradeRecord D)) (t : TradeRecord D)
      : Type 0 where
    pub old : TradeRecord D
    pub known : Memᴰ old rows
    pub chosen : IsChosen r rows old
    pub closing : IsClosing r old t
    pub with_reason : truthy (some (strip r.exit_reason)) ≡ true
    pub only_it : rows' ≡ replace_trade t rows

  check_close-parts :
      (p : Platform D) (r : CloseRequest) (rows : List (TradeRecord D)) (t : TradeRecord D)
      → check_close p r rows ≡ ok t
      → (truthy (some (strip r.exit_reason)) ≡ true)
        × ((old : TradeRecord D) × (choose_trade r.trade_id rows ≡ ok old)
            × (closed_record p old r ≡ ok t))
  unfolding check_close
  check_close-parts p r rows t h = elim (Bool-cases (truthy (some (strip r.exit_reason)))) [
    | inr n ↦ ground arith
    | inl n ↦ elim (Result-cases (choose_trade r.trade_id rows)) [
      | inl (e, f) ↦ ground arith
      | inr (old, f) ↦ (n, (old, f, ground arith))
    ]
  ]

  close_parts :
      (p : Platform D) (template : Document) (r : CloseRequest) (rows : List (TradeRecord D))
      (t : TradeRecord D)
      → (close_paper_trade p template r rows).0 ≡ ok t
      → (check_close p r rows ≡ ok t)
        × ((close_paper_trade p template r rows).1 ≡ replace_trade t rows)
  unfolding close_paper_trade
  close_parts p template r rows t h = elim (Result-cases (check_close p r rows)) [
    | inl (e, f) ↦ ground arith
    | inr (u, f) ↦ elim (Result-cases (fill_closed p template u)) [
      | inl (e, g) ↦ ground arith
      | inr (d, g) ↦
          let q : u ≡ t = ground arith in
          (f ∙ ap ok q, rw (close_paper_trade, f, g) (ap (λ x. replace_trade x rows) q))
    ]
  ]

  -- If close_paper_trade returns a trade, then its exit reason is not blank, it is the trade that
  -- is asked for, or else the only open one, which was not closed, with its terms kept and closed
  -- for that reason, and no other trade is written.
  pub close_paper_trade-IsClose :
      (p : Platform D) (template : Document) (r : CloseRequest) (rows : List (TradeRecord D))
      (t : TradeRecord D)
      → (close_paper_trade p template r rows).0 ≡ ok t
      → IsClose r rows (close_paper_trade p template r rows).1 t
  close_paper_trade-IsClose p template r rows t h =
      let (c, w) = close_parts p template r rows t h in
      let (n, (old, f, g)) = check_close-parts p r rows t c in
      let (m, i) = choose_trade-IsChosen r r.trade_id rows old refl f in
      record {
        old = old;
        known = m;
        chosen = i;
        closing = closed_record-IsClosing p old r t g;
        with_reason = n;
        only_it = w;
      }

  -- If close_paper_trade raises, then the trades are what they were.
  pub close_paper_trade-refused :
      (p : Platform D) (template : Document) (r : CloseRequest) (rows : List (TradeRecord D))
      (e : CloseError)
      → (close_paper_trade p template r rows).0 ≡ err e
      → (close_paper_trade p template r rows).1 ≡ rows
  unfolding close_paper_trade
  close_paper_trade-refused p template r rows e h = elim (Result-cases (check_close p r rows)) [
    | inl (q, f) ↦ rw (close_paper_trade, f) refl
    | inr (u, f) ↦ elim (Result-cases (fill_closed p template u)) [
      | inl (q, g) ↦ rw (close_paper_trade, f, g) refl
      | inr (d, g) ↦ ground arith
    ]
  ]
