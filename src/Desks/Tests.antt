-- ===== src/Desks/Tests.antt =====
-- The desks on small inputs.
use market_memory.Prelude.{
  ◌≡◌, refl, true, false, none, some, List, [], ◌∷◌, String, err, norm, strip, lower,
}
use market_memory.Research.Enums.{pass, revise, reject, parse_status, parse_decision, parse_verdict}
use market_memory.Research.Errors.{GateError}
use market_memory.Research.StateMachine.{
  validate_transition, check_transition, assert_not_self_approve,
}
use market_memory.Desks.Lifecycle.{
  DeskContext, Transition, WorkspaceRef, no_workspace, apply_workspace, record_transition,
  current_status,
}
use market_memory.Desks.Lifecycle.Laws.{record_transition_illegal}
use market_memory.Desks.SkepticGate.{
  Check, Thesis, decide, checklist, failed_checks, forced, run, any_archive, gate_reason,
  invalidation_lookback_ok, daily_print_on_multiday, flow_single_print, evaluate_invalidation,
}
use market_memory.Desks.SkepticGate.Laws.{IsSound, decide_unforced, run-pass-IsSound}
use market_memory.Desks.Queue.{Line, QueueItem, parse_queue, item_of}
use market_memory.Desks.Store.{Envelope, EnvelopeStore}

abbrev move : String → String → Transition
move from to = record {
  from_status = from;
  to_status = to;
  actor = "Coordinator";
  reason = "next";
  risk_decision = "pending";
  principal_override = false;
  author = some "Research";
  gate = none;
}

abbrev context : WorkspaceRef → DeskContext
context w = record {
  thesis = some (record { slug = "THESIS-1"; status = "draft" });
  workspace = w;
  events = [];
}

record_transition_illegal_example :
    record_transition (context no_workspace) (move "draft" "paper")
    ≡ (err GateError.illegal_transition, context no_workspace)
unfolding norm strip parse_status parse_decision validate_transition check_transition
record_transition_illegal_example =
    record_transition_illegal (context no_workspace) (move "draft" "paper")
      GateError.illegal_transition refl

abbrev thesis : Thesis
thesis = record {
  ref = record { slug = "THESIS-1"; status = "in_research" };
  author = "Research";
  reviewer = "Skeptic";
  has_evidence = true;
  look_ahead = false;
  leakage = false;
  already_priced = false;
  invalidation_quality = "ok";
  invalidation = "close below 90";
  invalidation_kind = "level";
  horizon = some 10;
  lookback = some 8;
}

abbrev failed : List Check
failed = failed_checks (checklist none)

decide_unforced_example :
    ((decide none failed).0 ≡ pass → failed ≡ [])
    × ((decide none failed).0 ≡ reject → any_archive failed ≡ true)
    × ((decide none failed).0 ≡ revise → any_archive failed ≡ false)
decide_unforced_example = decide_unforced failed

run-pass-IsSound_example : IsSound thesis
unfolding norm strip lower parse_status parse_decision parse_verdict validate_transition
    check_transition assert_not_self_approve record_transition apply_workspace run checklist
    failed_checks forced decide current_status gate_reason evaluate_invalidation
    invalidation_lookback_ok daily_print_on_multiday flow_single_print
run-pass-IsSound_example = run-pass-IsSound "Skeptic" "" thesis no_workspace [] refl

-- A queue with a ready item and a closed incident.
abbrev fields : String → List Line
fields status =
    Line.heading "IMP-2"
    ∷ Line.field "Priority" "P1"
    ∷ Line.field "Type" "code"
    ∷ Line.field "Desk" "ops"
    ∷ Line.field "Owner" "ops"
    ∷ Line.field "Problem" "p"
    ∷ Line.field "Evidence" "e"
    ∷ Line.field "Proposed outcome" "o"
    ∷ Line.field "Definition of done" "d"
    ∷ Line.field "Non-goals" "n"
    ∷ Line.field "Dependencies" "none"
    ∷ Line.field "Risk level" "low"
    ∷ Line.field "Status" status
    ∷ Line.field "PR" "-"
    ∷ Line.field "Lesson learned" "-"
    ∷ Line.heading "SRC-1"
    ∷ Line.field "Status" " CLOSED "
    ∷ Line.field "Note" "RUN_ID 7"
    ∷ []

abbrev queue : List QueueItem
queue = parse_queue (fields "READY")

abbrev incident_item : QueueItem
incident_item = item_of "SRC-1" (("ID", "SRC-1") ∷ ("Status", "CLOSED") ∷ ("Note", "RUN_ID 7") ∷ [])

abbrev envelope : Envelope
envelope = record {
  envelope_id = "e1";
  desk = "intel";
  as_of_utc = "2026-01-02T00:00:00+00:00";
  content_hash = "h";
}

abbrev empty_store : EnvelopeStore
empty_store = record { by_id = []; order = [] }
