-- ===== src/Paper/Ledger.antt =====
-- packages/paper/src/mm_paper/{gates,artifacts,ledger}.py: the opening of a paper trade in a thesis
-- workspace. The search of a number in a text and the decimals are operations of `Numbers`; a
-- decimal is a multiple of a fixed unit.
pub mod Laws
use market_memory.Prelude.{
  ℕ, Bool, true, false, ◌&&◌, not, Option, none, some, List, [], ◌∷◌, ◌++◌, String, str_eq, text_in,
  if◌then◌else◌, strip, lower, norm, truthy, Result, ok, err, ◌>>=◌, ◌>>◌, raise_if, or_raise,
  or_default,
}
use market_memory.Prelude.Int.{ℤ, pos, ltb_ℤ}
use market_memory.Research.Enums.{SkepticVerdict, pass}
use market_memory.Research.Errors.{GateError}
use market_memory.Research.Markdown.{Document, set_field}
use market_memory.Research.Workspace.{
  Workspace, PaperFile, json, markdown, read_status, recorded_skeptic_verdict,
}
use market_memory.Research.Lifecycle.{Advanced, advance_status}

-- The errors of errors.py, and an error of the research kit.
pub data PaperError : Type 0 where
  live_not_allowed missing_invalidation missing_max_loss max_loss_not_positive : PaperError
  missing_size no_skeptic_pass : PaperError
  refused : GateError → PaperError

pub record Numbers : Type 0 where
  pub search : String → Option String
  pub decimal : String → Option ℤ

-- `PLACEHOLDERS`
abbrev pub placeholders : List String
placeholders =
    "" ∷ "-" ∷ "n/a" ∷ "na" ∷ "none" ∷ "null" ∷ "tbd" ∷ "todo" ∷ "?" ∷ "unknown" ∷ "placeholder"
    ∷ []

unfoldable pub blank_or_placeholder : Option String → Bool
blank_or_placeholder none = true
blank_or_placeholder (some value) = text_in (norm value) placeholders

-- `_NUMBER.search(text.replace(",", ""))` and the decimal, behind the search.
abbrev amount_of : Numbers → String → Option ℤ
amount_of numbers text = elim (numbers.search text) [ none ↦ none | some n ↦ numbers.decimal n ]

abbrev stripped : Option String → String
stripped none = ""
stripped (some value) = strip value

unfoldable pub require_invalidation : Option String → Result PaperError String
require_invalidation value =
    if blank_or_placeholder value then err missing_invalidation else ok (stripped value)

unfoldable pub parse_max_loss : Numbers → Option String → Result PaperError (String × ℤ)
parse_max_loss numbers value =
    if blank_or_placeholder value
    then err missing_max_loss
    else elim (amount_of numbers (stripped value)) [
      | none ↦ err missing_max_loss
      | some amount ↦
          if ltb_ℤ (pos 0) amount then ok (stripped value, amount) else err max_loss_not_positive
    ]

-- The keyword arguments that decide, with the new id.
pub record OpenRequest : Type 0 where
  pub id : String
  pub size : String
  pub max_loss : String
  pub invalidation : String
  pub instrument : String
  pub side : String

-- `PaperTradeRecord` without its fills, marks and times.
pub record PaperTrade : Type 0 where
  pub id : String
  pub thesis_slug : String
  pub instrument : String
  pub size : String
  pub side : String
  pub invalidation : String
  pub max_loss : String
  pub max_loss_amount : ℤ

abbrev as_refused : {A : Type 0} → Result GateError A → Result PaperError A
as_refused (ok a) = ok a
as_refused (err e) = err (refused e)

abbrev is_passed : Option SkepticVerdict → Bool
is_passed (some pass) = true
is_passed _ = false

-- The steps of `open_paper_trade` up to the record.
unfoldable pub check_open : Numbers → OpenRequest → Workspace → Result PaperError PaperTrade
check_open numbers r w = do
  raise_if (str_eq (lower r.side) "live") live_not_allowed
  invalidation ← require_invalidation (some r.invalidation)
  loss ← parse_max_loss numbers (some r.max_loss)
  raise_if (not (truthy (some (strip r.size)))) missing_size
  verdict ← as_refused (recorded_skeptic_verdict w)
  raise_if (not (is_passed verdict)) no_skeptic_pass
  ok (record {
    id = r.id;
    thesis_slug = w.name;
    instrument = or_default (strip r.instrument) "BTC";
    size = strip r.size;
    side = or_default (strip r.side) "long";
    invalidation = invalidation;
    max_loss = loss.0;
    max_loss_amount = loss.1;
  })

-- The fields that `write_paper_artifacts` sets in the template, without the times and the hash.
unfoldable pub fill_template : Document → PaperTrade → Result GateError Document
fill_template template t = do
  slugged ← set_field template "Thesis id" t.thesis_slug
  named ← set_field slugged "Instrument" t.instrument
  sized ← set_field named "Size" t.size
  limited ← set_field sized "Max loss" t.max_loss
  set_field limited "Invalidation" t.invalidation

abbrev pub with_files : Workspace → List PaperFile → Workspace
with_files w files = record w { paper_files = w.paper_files ++ files }

-- `write_paper_artifacts`: the template is copied before its fields are set.
unfoldable pub write_paper_artifacts :
    Document → PaperTrade → Workspace → Result PaperError (Unit {0}) × Workspace
write_paper_artifacts template t w = elim (fill_template template t) [
  | err e ↦ (err (refused e), with_files w (markdown template ∷ []))
  | ok d ↦ (
    ok tt,
    with_files w (markdown d ∷ json t.invalidation t.max_loss (some t.max_loss_amount) ∷ []),
  )
]

abbrev pub is_paper : Option String → Bool
is_paper none = false
is_paper (some status) = str_eq status "paper"

-- The last step: the thesis is advanced to paper unless it is there.
unfoldable pub advance_to_paper : Workspace → Result PaperError (Unit {0}) × Workspace
advance_to_paper w = elim (read_status w) [
  | err e ↦ (err (refused e), w)
  | ok current ↦
      if is_paper current
      then (ok tt, w)
      else let a = advance_status w "paper" "Coordinator" "status advance" "pending" false none in
        elim a.result [ err e ↦ (err (refused e), a.workspace) | ok _ ↦ (ok tt, a.workspace) ]
]

unfoldable pub open_paper_trade :
    Numbers → Document → OpenRequest → Workspace → Result PaperError PaperTrade × Workspace
open_paper_trade numbers template r w = elim (check_open numbers r w) [
  | err e ↦ (err e, w)
  | ok t ↦
      let (written, w₁) = write_paper_artifacts template t w in
      elim written [
        | err e ↦ (err e, w₁)
        | ok _ ↦
            let (advanced, w₂) = advance_to_paper w₁ in
            elim advanced [ err e ↦ (err e, w₂) | ok _ ↦ (ok t, w₂) ]
      ]
]
