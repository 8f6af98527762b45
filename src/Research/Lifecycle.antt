-- ===== src/Research/Lifecycle.antt =====
-- packages/research_kit/src/mm_research_kit/lifecycle.py: the gates of a status change, and the
-- change itself. A call that writes returns the workspace with its result, also where it raises:
-- what was written stays written.
pub mod Gates
pub mod Writes
use market_memory.Prelude.{
  Bool, true, false, ◌&&◌, ◌||◌, not, Option, none, some, List, [], ◌∷◌, ◌++◌, String, str_eq,
  if◌then◌else◌, norm, strip, lower, Result, ok, err, ◌>>=◌, ◌>>◌, raise_if, truthy, or_default,
}
use market_memory.Research.Enums.{
  ThesisStatus, SkepticVerdict, pass, parse_status, requires_evidence,
}
use market_memory.Research.Errors.{GateError}
use market_memory.Research.Markdown.{Document, set_field}
use market_memory.Research.StateMachine.{
  Request, validate_transition, TransitionLog, TransitionHook, emit_transition,
}
use market_memory.Research.Workspace.{
  Workspace, exists, has_evidence_links, paper_has_invalidation_and_max_loss, has_paper,
  read_status, read_author_role, recorded_skeptic_verdict,
}

-- `read_status(workspace) or "draft"`
abbrev pub status_or_draft : Option String → String
status_or_draft none = "draft"
status_or_draft (some s) = s

abbrev is_pass : Option SkepticVerdict → Bool
is_pass (some pass) = true
is_pass _ = false

-- `_assert_paper_ready`
unfoldable pub assert_paper_ready : Workspace → Result GateError (Unit {0})
assert_paper_ready w = do
  verdict ← recorded_skeptic_verdict w
  raise_if (not (is_pass verdict)) GateError.paper_requires_skeptic_pass
  raise_if (not (has_evidence_links w)) GateError.in_skeptic_without_evidence
  raise_if (not (paper_has_invalidation_and_max_loss w)) GateError.paper_incomplete

-- The keyword arguments of `assert_can_mark` and `advance_status`.
pub record Marking : Type 0 where
  pub risk_decision : String
  pub principal_override : Bool
  pub actor : Option String
  pub author : Option String

abbrev when : Bool → Result GateError (Unit {0}) → Result GateError (Unit {0})
when c m = if c then m else ok tt

-- The part of `assert_can_mark` for a status that stays.
assert_can_keep : Workspace → String → Result GateError (Unit {0})
assert_can_keep w target = do
  raise_if (str_eq target "in_skeptic" && not (has_evidence_links w))
      GateError.in_skeptic_without_evidence
  when (str_eq target "paper") (assert_paper_ready w)

-- The part of `assert_can_mark` for a new status.
assert_can_move : Workspace → String → Result GateError (Unit {0})
assert_can_move w target = do
  raise_if ((str_eq target "in_research" || str_eq target "in_skeptic") && not (exists w.thesis))
      GateError.no_intent
  raise_if (str_eq target "in_skeptic" && not (exists w.plan)) GateError.no_research_plan
  raise_if (str_eq target "in_skeptic" && not (has_evidence_links w))
      GateError.in_skeptic_without_evidence
  raise_if (str_eq target "in_research" && not (exists w.thesis)) GateError.no_thesis
  when (str_eq target "paper") (assert_paper_ready w)

abbrev request_of : Workspace → String → String → Marking → Request
request_of w current target m = record {
  current = current;
  target = target;
  risk_decision = m.risk_decision;
  principal_override = m.principal_override;
  actor = m.actor;
  author = if truthy m.author then m.author else some (read_author_role w);
  gate = none;
}

-- `assert_can_mark`
unfoldable pub assert_can_mark : Workspace → String → Marking → Result GateError (Unit {0})
unfolding assert_can_keep assert_can_move
assert_can_mark w target_text m = do
  let target = norm target_text
  raise_if (not (exists w.intent)) GateError.no_intent
  status ← read_status w
  let current = status_or_draft status
  validate_transition (request_of w current target m)
  if str_eq target current then assert_can_keep w target else assert_can_move w target

-- `set_field` on the text of a file that may be missing.
abbrev set_in : Option Document → String → String → Result GateError (Option Document)
set_in none field v = ok none
set_in (some d) field v = set_field d field v >>= λ e. ok (some e)

-- `except KeyError: pass`
abbrev set_or_keep : Option Document → String → String → Option Document
set_or_keep file field v = elim (set_in file field v) [ ok file' ↦ file' | err _ ↦ file ]

-- `write_status`
unfoldable pub write_status : Workspace → String → Result GateError (Unit {0}) × Workspace
write_status w status = elim (set_in w.thesis "Status / version" status) [
  | err e ↦ (err e, w)
  | ok thesis ↦ elim (set_in w.intent "Status" status) [
    | err e ↦ (err e, record w { thesis = thesis })
    | ok intent ↦ (
      ok tt,
      record w { thesis = thesis; intent = intent; plan = set_or_keep w.plan "Status" status },
    )
  ]
]

-- What a call of `advance_status` leaves: its result, the workspace, and the hook, if there is
-- one.
pub record Advanced : Type 0 where
  pub result : Result GateError String
  pub workspace : Workspace
  pub hook : Option TransitionHook

abbrev transition_log : Workspace → String → String → String → String → Marking → TransitionLog
transition_log w from to actor reason m = record {
  actor = actor;
  reason = reason;
  from_status = from;
  to_status = to;
  thesis_slug = some w.name;
  risk_decision = m.risk_decision;
  principal_override = m.principal_override;
}

-- `advance_status` with its actor, decision and override; the author is read from the workspace.
unfoldable pub advance_status :
    Workspace → String → String → String → String → Bool → Option TransitionHook → Advanced
advance_status w target_text actor reason decision override hook =
    let target = norm target_text in
    let m : Marking = record {
      risk_decision = decision;
      principal_override = override;
      actor = some actor;
      author = some (read_author_role w);
    } in
    elim (read_status w >>= λ status. assert_can_mark w target m >> ok (status_or_draft status)) [
      | err e ↦ record { result = err e; workspace = w; hook = hook }
      | ok current ↦
          let (written, w') = write_status w target in
          elim written [
            | err e ↦ record { result = err e; workspace = w'; hook = hook }
            | ok _ ↦
                let (emitted, hook') =
                  emit_transition (transition_log w current target actor reason m) hook in
                record { result = emitted >> ok target; workspace = w'; hook = hook' }
          ]
    ]

-- `assert_independent_skeptic`
unfoldable pub assert_independent_skeptic : Workspace → String → Result GateError (Unit {0})
assert_independent_skeptic w reviewer =
    raise_if (str_eq (norm reviewer) (norm (read_author_role w)))
      GateError.author_cannot_be_sole_skeptic

-- The messages of `check_workspace`.
pub data Problem : Type 0 where
  thesis_without_intent plan_without_thesis review_without_plan runs_without_plan : Problem
  paper_without_review paper_not_complete promotion_without_paper : Problem
  post_mortem_without_paper status_without_evidence : Problem

abbrev pub report_if : Bool → Problem → List Problem
report_if c p = if c then p ∷ [] else []

status_needs_evidence : Option String → Bool
status_needs_evidence none = false
status_needs_evidence (some s) = elim (parse_status s) [
  | none ↦ false
  | some status ↦ requires_evidence status
]

-- `check_workspace`
unfoldable pub check_workspace : Workspace → Result GateError (List Problem)
unfolding status_needs_evidence
check_workspace w = do
  status ← read_status w
  ok (
      report_if (exists w.thesis && not (exists w.intent)) Problem.thesis_without_intent
      ++ (report_if (exists w.plan && not (exists w.thesis)) Problem.plan_without_thesis
          ++ (report_if (exists w.review && not (exists w.plan)) Problem.review_without_plan
              ++ (report_if (w.has_runs && not (exists w.plan)) Problem.runs_without_plan
                  ++ (report_if (has_paper w && not (exists w.review)) Problem.paper_without_review
                      ++ (report_if (has_paper w && not (paper_has_invalidation_and_max_loss w))
                            Problem.paper_not_complete
                          ++ (report_if (w.has_promotion && not (has_paper w))
                                Problem.promotion_without_paper
                              ++ (report_if
                                    (w.has_post_mortem && not (has_paper w || w.has_promotion))
                                    Problem.post_mortem_without_paper
                                  ++ report_if
                                      (status_needs_evidence status && not (has_evidence_links w))
                                      Problem.status_without_evidence))))))))
