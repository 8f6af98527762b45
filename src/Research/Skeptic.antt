-- ===== src/Research/Skeptic.antt =====
-- packages/research_kit/src/mm_research_kit/skeptic.py: opening a skeptic review and recording
-- its verdict, and `fill_skeptic_review` of artifacts.py. `now` is `isoformat_now()`. Findings
-- are left out: the code appends them to the review as a bullet under a heading.
pub mod Laws
use market_memory.Prelude.{
  Bool, true, false, ◌&&◌, not, Option, none, some, String, str_eq, if◌then◌else◌, norm, strip,
  Result, ok, err, ◌>>=◌, ◌>>◌, raise_if, or_raise, truthy,
}
use market_memory.Research.Enums.{
  SkepticVerdict, pass, revise, reject, parse_verdict, verdict_value, status_value,
}
use market_memory.Research.Errors.{GateError}
use market_memory.Research.Markdown.{Document, get_field, set_field}
use market_memory.Research.StateMachine.{skeptic_fail_target}
use market_memory.Research.Workspace.{Workspace, has_evidence_links, read_status}
use market_memory.Research.Lifecycle.{
  Marking, Advanced, advance_status, assert_can_mark, assert_independent_skeptic, status_or_draft,
}

-- A call's result with the workspace that it leaves.
abbrev pub Call : Type 0
Call = Result GateError String × Workspace

-- The next statement, which runs if the one before did not raise.
infixl 5 ◌andthen◌
abbrev pub ◌andthen◌ : Call → (Workspace → Call) → Call
(ok _, w) andthen f = f w
(err e, w) andthen f = (err e, w)

-- A check, before which nothing is written.
abbrev checked : {A : Type 0} → Result GateError A → Workspace → (A → Call) → Call
checked (ok a) w f = f a
checked (err e) w f = (err e, w)

abbrev text_or : Option String → String → String
text_or o d = elim o [ none ↦ d | some s ↦ if truthy (some s) then s else d ]

abbrev field_in : Option Document → String → Option String
field_in none f = none
field_in (some d) f = get_field d f

-- `_slug`
abbrev slug_of : Workspace → String
slug_of w = text_or (field_in w.thesis "Thesis id") w.name

abbrev set_optional : Option String → String → Document → Result GateError Document
set_optional none f d = ok d
set_optional (some v) f d = set_field d f v

-- `fill_skeptic_review`
unfoldable pub fill_skeptic_review :
    Document → String → String → String → Option String → Result GateError Document
fill_skeptic_review d slug reviewer created_at verdict = do
  d ← set_field d "Thesis id" slug
  d ← set_field d "Reviewer id or role" reviewer
  d ← set_field d "Created at" created_at
  set_optional verdict "Verdict" d

abbrev stamp_of : String → Option String → Document → String
stamp_of now created_at d = text_or created_at (text_or (get_field d "Created at") now)

-- `_write_review`
unfoldable pub write_review : String → String → Option String → Option String → Workspace → Call
write_review now reviewer verdict created_at w = elim w.review [
  | none ↦ (err GateError.review_missing, w)
  | some d ↦ elim (fill_skeptic_review d (slug_of w) reviewer (stamp_of now created_at d) verdict) [
    | err e ↦ (err e, w)
    | ok d' ↦ (ok reviewer, record w { review = some d' })
  ]
]

-- `advance_status(workspace, target)` with its default arguments.
unfoldable pub advance : String → Workspace → Call
advance target w =
    let a = advance_status w target "Coordinator" "status advance" "pending" false none in
    (a.result, a.workspace)

abbrev default_marking : Marking
default_marking = record {
  risk_decision = "pending";
  principal_override = false;
  actor = none;
  author = none;
}

-- `open_skeptic_review`
unfoldable pub open_skeptic_review : String → String → Workspace → Call
open_skeptic_review now reviewer_text w =
    let reviewer = strip reviewer_text in
    checked
      (do
        raise_if (not (truthy (some reviewer))) GateError.reviewer_required
        assert_independent_skeptic w reviewer
        raise_if (not (has_evidence_links w)) GateError.in_skeptic_without_evidence)
      w
      λ _. advance "in_skeptic" w andthen write_review now reviewer none (some now) andthen λ w'.
        (ok "in_skeptic", w')

abbrev pass_gates : Workspace → Result GateError (Unit {0})
pass_gates w = do
  raise_if (not (has_evidence_links w)) GateError.in_skeptic_without_evidence
  assert_can_mark w "in_skeptic" default_marking

-- The status change that a verdict brings.
unfoldable pub apply_verdict : SkepticVerdict → String → Workspace → Call
apply_verdict pass current w = checked (pass_gates w) w λ _. advance "in_skeptic" w
apply_verdict revise current w =
    if str_eq current "in_skeptic"
    then checked (skeptic_fail_target "return") w (λ target. advance (status_value target) w)
    else (ok current, w)
apply_verdict reject current w =
    if not (str_eq current "rejected")
    then checked (skeptic_fail_target "archive") w (λ target.
      checked (assert_can_mark w (status_value target) default_marking) w
        λ _. advance (status_value target) w)
    else (ok current, w)

abbrev is_reject : SkepticVerdict → Bool
is_reject reject = true
is_reject _ = false

abbrev final_status : String → Workspace → Call
final_status current w = elim (read_status w) [
  | err e ↦ (err e, w)
  | ok status ↦ (ok (text_or status current), w)
]

-- The checks of `record_skeptic_verdict`, with the verdict and the status that they read.
unfoldable pub check_verdict :
    String → String → Workspace → Result GateError (SkepticVerdict × String)
check_verdict verdict_text reviewer w = do
  verdict ← or_raise (parse_verdict (norm verdict_text)) GateError.bad_verdict
  raise_if (not (truthy (some reviewer))) GateError.reviewer_required
  assert_independent_skeptic w reviewer
  status ← read_status w
  let current = status_or_draft status
  raise_if (str_eq current "rejected" && not (is_reject verdict)) GateError.rejected_is_terminal
  ok (verdict, current)

-- `record_skeptic_verdict` without findings.
unfoldable pub record_skeptic_verdict : String → String → String → Workspace → Call
record_skeptic_verdict now verdict_text reviewer_text w =
    let reviewer = strip reviewer_text in
    checked (check_verdict verdict_text reviewer w) w λ v.
      apply_verdict v.0 v.1 w
      andthen write_review now reviewer (some (verdict_value v.0)) none
      andthen final_status v.1
