-- ===== src/Paper/Ledger/Laws.antt =====
-- What an open paper trade rests on, and what a refused one leaves.
use market_memory.Prelude.{
  norm-strip, strip, ◌≡◌, ◌++◌, ◌∷◌, [], ap, ◌∙◌, true, false, Option, none, some, String, ok, err,
  arith, eq_iff, norm, Result-cases, Bool-cases, inl, inr,
}
use market_memory.Prelude.Int.{pos, ltb_ℤ}
use market_memory.Research.Enums.{pass}
use market_memory.Research.Markdown.{Document}
use market_memory.Research.Workspace.{
  Workspace, json, markdown, read_status, recorded_skeptic_verdict,
}
use market_memory.Research.Lifecycle.{Advanced, advance_status, write_status}
use market_memory.Research.Lifecycle.Writes.{advance_status-read}
use market_memory.Paper.Ledger.{
  Numbers, OpenRequest, PaperTrade, PaperError, blank_or_placeholder, check_open,
  require_invalidation, parse_max_loss, write_paper_artifacts, advance_to_paper, open_paper_trade,
  is_paper, fill_template,
}

-- What the gates of an open trade found.
pub record IsBacked (r : OpenRequest) (w : Workspace) (t : PaperTrade) : Type 0 where
  pub invalidation : t.invalidation ≡ strip r.invalidation
  pub invalidated : blank_or_placeholder (some t.invalidation) ≡ false
  pub max_loss : t.max_loss ≡ strip r.max_loss
  pub limited : blank_or_placeholder (some t.max_loss) ≡ false
  pub at_risk : ltb_ℤ (pos 0) t.max_loss_amount ≡ true
  pub passed : recorded_skeptic_verdict w ≡ ok (some pass)

blank_strip :
    (s t : String)
    → t ≡ strip s
    → blank_or_placeholder (some s) ≡ false
    → blank_or_placeholder (some t) ≡ false
unfolding blank_or_placeholder
blank_strip s t e h = rw (e, norm-strip s) h

check_open-IsBacked :
    (numbers : Numbers) (r : OpenRequest) (w : Workspace) (t : PaperTrade)
    → check_open numbers r w ≡ ok t
    → IsBacked r w t
unfolding check_open require_invalidation parse_max_loss
check_open-IsBacked numbers r w t h =
    let given : t.invalidation ≡ strip r.invalidation = ground arith in
    let loss : t.max_loss ≡ strip r.max_loss = ground arith in
    record {
      invalidation = given;
      invalidated = blank_strip r.invalidation t.invalidation given (ground arith);
      max_loss = loss;
      limited = blank_strip r.max_loss t.max_loss loss (ground arith);
      at_risk = ground arith;
      passed = ground arith;
    }

read_status-with_files :
    (template : Document) (t : PaperTrade) (w : Workspace)
    → read_status (write_paper_artifacts template t w).1 ≡ read_status w
unfolding write_paper_artifacts read_status
read_status-with_files template t w = ground arith

-- The advance of `open_paper_trade`.
abbrev advanced : Workspace → Advanced
advanced w = advance_status w "paper" "Coordinator" "status advance" "pending" false none

advanced-target : (w : Workspace) (t : String) → (advanced w).result ≡ ok t → t ≡ "paper"
unfolding advance_status norm
advanced-target w t h = ground arith

advanced-files : (w : Workspace) → (advanced w).workspace.paper_files ≡ w.paper_files
unfolding advance_status write_status
advanced-files w = ground arith

advanced-read :
    (w : Workspace) (t : String)
    → (advanced w).result ≡ ok t
    → read_status (advanced w).workspace ≡ ok (some "paper")
advanced-read w t h =
    let (_, _, _, r) =
      advance_status-read w "paper" "Coordinator" "status advance" "pending" false none t h in
    r ∙ ap (λ x. ok (some x)) (advanced-target w t h)

is_paper-eq : (current : Option String) → is_paper current ≡ true → current ≡ some "paper"
is_paper-eq none h = ground arith
is_paper-eq (some s) h = ap some (ground (arith, eq_iff s "paper"))

advance_to_paper-read :
    (w : Workspace)
    → (advance_to_paper w).0 ≡ ok tt
    → read_status (advance_to_paper w).1 ≡ ok (some "paper")
unfolding advance_to_paper
advance_to_paper-read w h = elim (Result-cases (read_status w)) [
  | inl (e, r) ↦ ground arith
  | inr (current, r) ↦ elim (Bool-cases (is_paper current)) [
    | inl b ↦
        let e : (advance_to_paper w).1 ≡ w = ground arith in
        rw e (r ∙ ap ok (is_paper-eq current b))
    | inr b ↦ elim (Result-cases (advanced w).result) [
      | inl (e, k) ↦ ground arith
      | inr (t, k) ↦
          let e : (advance_to_paper w).1 ≡ (advanced w).workspace = ground arith in
          rw e (advanced-read w t k)
    ]
  ]
]

advance_to_paper-files : (w : Workspace) → (advance_to_paper w).1.paper_files ≡ w.paper_files
unfolding advance_to_paper
advance_to_paper-files w = ground (arith, advanced-files w)

-- A trade that was opened went through the gates, the files and the advance.
open_paper_trade-steps :
    (numbers : Numbers) (template : Document) (r : OpenRequest) (w : Workspace) (t : PaperTrade)
    → (open_paper_trade numbers template r w).0 ≡ ok t
    → let w₁ = (write_paper_artifacts template t w).1 in
      (check_open numbers r w ≡ ok t)
      × ((advance_to_paper w₁).0 ≡ ok tt)
      × ((open_paper_trade numbers template r w).1 ≡ (advance_to_paper w₁).1)
unfolding open_paper_trade
open_paper_trade-steps numbers template r w t h = ground arith

-- If open_paper_trade returns a trade, then its invalidation and its max loss are the given ones
-- without surrounding space, and neither blank nor placeholders, its max loss amount is positive,
-- the recorded skeptic verdict is pass, and read_status of the workspace that is left is paper.
pub open_paper_trade-IsBacked :
    (numbers : Numbers) (template : Document) (r : OpenRequest) (w : Workspace) (t : PaperTrade)
    → (open_paper_trade numbers template r w).0 ≡ ok t
    → IsBacked r w t × (read_status (open_paper_trade numbers template r w).1 ≡ ok (some "paper"))
open_paper_trade-IsBacked numbers template r w t h =
    let (c, a, e) = open_paper_trade-steps numbers template r w t h in
    (
      check_open-IsBacked numbers r w t c,
      rw e (advance_to_paper-read (write_paper_artifacts template t w).1 a),
    )

-- The files of a trade.
pub record HasTrade (w w' : Workspace) (t : PaperTrade) : Type 0 where
  pub document : Document
  pub files :
      w'.paper_files
      ≡ w.paper_files
        ++ markdown document ∷ json t.invalidation t.max_loss (some t.max_loss_amount) ∷ []

write_paper_artifacts-HasTrade :
    (template : Document) (t : PaperTrade) (w : Workspace)
    → (write_paper_artifacts template t w).0 ≡ ok tt
    → HasTrade w (write_paper_artifacts template t w).1 t
unfolding write_paper_artifacts
write_paper_artifacts-HasTrade template t w h = elim (Result-cases (fill_template template t)) [
  | inl (e, k) ↦ ground arith
  | inr (d, k) ↦ record { document = d; files = ground arith }
]

-- If the gates of open_paper_trade let a trade through, its artifacts are written, and
-- open_paper_trade then raises, then the workspace that is left still has the two files of the
-- trade.
pub refused_open_keeps_trade :
    (numbers : Numbers) (template : Document) (r : OpenRequest) (w : Workspace) (t : PaperTrade)
    (e : PaperError)
    → check_open numbers r w ≡ ok t
    → (write_paper_artifacts template t w).0 ≡ ok tt
    → (open_paper_trade numbers template r w).0 ≡ err e
    → HasTrade w (open_paper_trade numbers template r w).1 t
unfolding open_paper_trade
refused_open_keeps_trade numbers template r w t e c a h =
    let made = write_paper_artifacts-HasTrade template t w a in
    record {
      document = made.document;
      files =
          ground (arith, made.files, advance_to_paper-files (write_paper_artifacts template t w).1);
    }
