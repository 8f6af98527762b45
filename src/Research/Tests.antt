-- ===== src/Research/Tests.antt =====
-- Small workspaces and requests, run through the lifecycle.
use market_memory.Research.StateMachine.{TransitionHook}
use market_memory.Research.StateMachine.Reach.{open_thesis_reaches}
use market_memory.Research.Enums.{retired, SkepticVerdict}
use market_memory.Research.Skeptic.{
  check_verdict, apply_verdict, advance, write_review, fill_skeptic_review,
}
use market_memory.Research.Lifecycle.{assert_independent_skeptic}
use market_memory.Prelude.{◌≢◌}
use market_memory.Prelude.{
  ◌≡◌, refl, ◌≢◌, inl, true, false, none, some, Option, [], ◌∷◌, String, norm, strip, ok, err, ◌⊎◌,
}
use market_memory.Prelude.Int.{pos}
use market_memory.Research.Enums.{
  draft, in_research, in_skeptic, paper, rejected, pending, block, parse_status, parse_decision,
  parse_verdict,
}
use market_memory.Research.Errors.{GateError}
use market_memory.Research.StateMachine.{
  Request, check_transition, validate_transition, assert_not_self_approve,
}
use market_memory.Research.StateMachine.Traces.{
  Advance, History, start, step, visits, paper_needs_skeptic, block_is_terminal,
}
use market_memory.Research.Markdown.{Document, get_field, set_field, first_token}
use market_memory.Research.Workspace.{
  Workspace, json, read_status, read_author_role, recorded_skeptic_verdict,
  paper_has_invalidation_and_max_loss,
}
use market_memory.Research.Lifecycle.{
  Marking, Advanced, assert_can_mark, assert_paper_ready, advance_status, write_status,
  status_or_draft,
}
use market_memory.Research.Lifecycle.Gates.{IsPaperReady, assert_can_mark-paper}
use market_memory.Research.Lifecycle.Writes.{IsMove, advance_status-read, advance_status-refused}
use market_memory.Research.Skeptic.{record_skeptic_verdict}
use market_memory.Research.Skeptic.Laws.{record_skeptic_verdict-recorded}

abbrev ask : String → String → String → Request
ask from to decision = record {
  current = from;
  target = to;
  risk_decision = decision;
  principal_override = false;
  actor = some "Coordinator";
  author = some "Research";
  gate = none;
}

abbrev to_research : Advance draft in_research block
unfolding norm strip parse_status parse_decision validate_transition check_transition
to_research = record {
  request = ask "draft" " In_Research " "BLOCK";
  reads = record { current_read = refl; target_read = refl; decision_read = refl };
  accepted = refl;
}

to_skeptic : Advance in_research in_skeptic pending
unfolding norm strip parse_status parse_decision validate_transition check_transition
to_skeptic = record {
  request = ask "in_research" "in_skeptic" "";
  reads = record { current_read = refl; target_read = refl; decision_read = refl };
  accepted = refl;
}

to_paper : Advance in_skeptic paper pending
unfolding norm strip parse_status parse_decision validate_transition check_transition
to_paper = record {
  request = ask "in_skeptic" "paper" "pending";
  reads = record { current_read = refl; target_read = refl; decision_read = refl };
  accepted = refl;
}

to_rejected : Advance rejected rejected pending
unfolding norm strip parse_status parse_decision validate_transition check_transition
to_rejected = record {
  request = ask "rejected" "rejected" "pending";
  reads = record { current_read = refl; target_read = refl; decision_read = refl };
  accepted = refl;
}

abbrev researched : History draft in_research
researched = step start block to_research

abbrev papered : History draft paper
papered = step (step researched pending to_skeptic) pending to_paper

block_is_terminal_example :
    (in_research ≡ draft) ⊎ (in_research ≡ in_research) ⊎ (in_research ≡ rejected)
unfolding to_research
block_is_terminal_example = block_is_terminal researched (tt, refl, refl)

paper_needs_skeptic_example : visits in_skeptic papered ≡ true
paper_needs_skeptic_example = paper_needs_skeptic papered (inl refl)

abbrev own_approval : Request
own_approval = record {
  current = "in_research";
  target = "in_skeptic";
  risk_decision = "pending";
  principal_override = false;
  actor = some "research ";
  author = some "Research";
  gate = some "skeptic";
}

abbrev thesis_file : Document
thesis_file =
    record { label = "Thesis id"; value = "THESIS-1" }
    ∷ record { label = "Status / version"; value = " in_skeptic / v2" }
    ∷ record { label = "Author role"; value = "Crypto desk" }
    ∷ []

abbrev review_file : String → Document
review_file v =
    record { label = "Thesis id"; value = "THESIS-1" }
    ∷ record { label = "Reviewer id or role"; value = "" }
    ∷ record { label = "Created at"; value = "2026-09-16" }
    ∷ record { label = "Verdict"; value = v }
    ∷ []

abbrev intent_file : Document
intent_file =
    record { label = "Owner"; value = "Don" } ∷ record { label = "Status"; value = "draft" } ∷ []

abbrev shop : String → Workspace
shop v = record {
  name = "THESIS-1";
  intent = some intent_file;
  thesis = some thesis_file;
  plan = none;
  review = some (review_file v);
  evidence = record { observation_id = "01J"; role = "supports"; notes = ""; linked_at = "" } ∷ [];
  paper_trade = none;
  paper_files = json "below 60k" "250 USD" (some (pos 250)) ∷ [];
  has_runs = false;
  has_promotion = false;
  has_post_mortem = false;
}

abbrev plain : Marking
plain = record { risk_decision = "allow"; principal_override = false; actor = none; author = none }

marks_paper : assert_can_mark (shop "pass") "Paper" plain ≡ ok tt
unfolding assert_can_mark assert_paper_ready recorded_skeptic_verdict
    paper_has_invalidation_and_max_loss read_status get_field first_token read_author_role norm
    strip parse_status parse_decision parse_verdict validate_transition check_transition
marks_paper = refl

assert_can_mark-paper_example : IsPaperReady (shop "pass")
unfolding norm strip
assert_can_mark-paper_example = assert_can_mark-paper (shop "pass") "Paper" plain refl marks_paper

abbrev quiet : TransitionHook
quiet = record { raises = λ log. none; rows = [] }

-- A hook that writes to a database that is down.
abbrev down : TransitionHook
down = record { raises = λ log. some "database is down"; rows = [] }

abbrev advanced : Advanced
advanced =
    advance_status (shop "pass") "Paper" "Principal" "skeptic pass" "allow" false (some quiet)

advances : advanced.result ≡ ok "paper"
unfolding advance_status write_status set_field assert_can_mark assert_paper_ready
    recorded_skeptic_verdict paper_has_invalidation_and_max_loss read_status get_field first_token
    read_author_role norm strip parse_status parse_decision parse_verdict validate_transition
    check_transition assert_not_self_approve
advances = refl

advance_status-read_example :
    (current : Option String) × (read_status (shop "pass") ≡ ok current)
    × IsMove (status_or_draft current) "paper"
    × (read_status advanced.workspace ≡ ok (some "paper"))
advance_status-read_example =
    advance_status-read (shop "pass") "Paper" "Principal" "skeptic pass" "allow" false (some quiet)
      "paper" advances

abbrev refused : Advanced
refused = advance_status (shop "pass") "paper" "Principal" "skeptic pass" "allow" false (some down)

refuses : refused.result ≡ err (GateError.hook_raised "database is down")
unfolding advance_status write_status set_field assert_can_mark assert_paper_ready
    recorded_skeptic_verdict paper_has_invalidation_and_max_loss read_status get_field first_token
    read_author_role norm strip parse_status parse_decision parse_verdict validate_transition
    check_transition assert_not_self_approve
refuses = refl

advance_status-refused_example :
    (refused.hook ≡ some down)
    × (((f : String) × (GateError.hook_raised "database is down" ≡ GateError.field_not_found f))
        ⊎ ((((p : String) × (GateError.hook_raised "database is down" ≡ GateError.hook_raised p))
              × ((write_status (shop "pass") (norm "paper")).0 ≡ ok tt)
              × (refused.workspace ≡ (write_status (shop "pass") (norm "paper")).1))
            ⊎ (refused.workspace ≡ shop "pass")))
advance_status-refused_example =
    advance_status-refused (shop "pass") "paper" "Principal" "skeptic pass" "allow" false
      (some down) (GateError.hook_raised "database is down") refuses

abbrev planned : Workspace
planned = record (shop "") { plan = some (record { label = "Status"; value = "draft" } ∷ []) }

records : (record_skeptic_verdict "now" "Pass" "Skeptic B" planned).0 ≡ ok "in_skeptic"
unfolding record_skeptic_verdict check_verdict apply_verdict advance write_review
    fill_skeptic_review assert_independent_skeptic advance_status write_status set_field
    assert_can_mark recorded_skeptic_verdict read_status get_field first_token read_author_role norm
    strip parse_status parse_decision parse_verdict validate_transition check_transition
    assert_not_self_approve
records = refl

record_skeptic_verdict-recorded_example :
    (v : SkepticVerdict) × (parse_verdict (norm "Pass") ≡ some v)
    × (norm "Skeptic B" ≢ norm (read_author_role planned))
    × (recorded_skeptic_verdict (record_skeptic_verdict "now" "Pass" "Skeptic B" planned).1
        ≡ ok (some v))
record_skeptic_verdict-recorded_example =
    record_skeptic_verdict-recorded "now" "Pass" "Skeptic B" planned "in_skeptic" records

open_thesis_reaches_example : History draft paper × History draft retired
open_thesis_reaches_example = open_thesis_reaches draft (λ e. cc) (λ e. cc) (λ e. cc)
