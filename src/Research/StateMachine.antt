-- ===== src/Research/StateMachine.antt =====
-- packages/research_kit/src/mm_research_kit/state_machine.py: the thesis lifecycle.
-- A status is compared as a member of its enum, after the text is normalised.
pub mod Laws
pub mod Traces
pub mod Reach
use market_memory.Prelude.{
  ◌≡◌, Bool, true, false, ◌&&◌, ◌||◌, not, Option, none, some, List, [], ◌∷◌, ◌++◌, String, str_eq,
  text_in, if◌then◌else◌, norm, strip, Result, ok, err, ◌>>=◌, ◌>>◌, raise_if, or_raise, truthy,
  or_default,
}
use market_memory.Research.Enums.{
  ThesisStatus, draft, in_research, in_skeptic, paper, live, rejected, retired, RiskDecision,
  pending, allow, block, parse_status, parse_decision, in_phase4, status_value,
}
use market_memory.Research.Errors.{GateError}

-- `ALLOWED_TRANSITIONS`
abbrev pub allowed : ThesisStatus → ThesisStatus → Bool
allowed draft in_research = true
allowed draft rejected = true
allowed in_research in_skeptic = true
allowed in_research rejected = true
allowed in_research draft = true
allowed in_skeptic in_research = true
allowed in_skeptic rejected = true
allowed in_skeptic retired = true
allowed in_skeptic paper = true
allowed paper rejected = true
allowed paper retired = true
allowed _ _ = false

-- `PROGRESSION_TARGETS`
abbrev pub is_progression : ThesisStatus → Bool
is_progression in_skeptic = true
is_progression paper = true
is_progression live = true
is_progression _ = false

abbrev pub is_status : ThesisStatus → ThesisStatus → Bool
is_status draft draft = true
is_status in_research in_research = true
is_status in_skeptic in_skeptic = true
is_status paper paper = true
is_status live live = true
is_status rejected rejected = true
is_status retired retired = true
is_status _ _ = false

abbrev pub is_block : RiskDecision → Bool
is_block block = true
is_block _ = false

abbrev pub text_of : Option String → String
text_of none = ""
text_of (some s) = s

-- `skeptic_fail_target`
unfoldable pub skeptic_fail_target : String → Result GateError ThesisStatus
skeptic_fail_target mode =
    let value = norm mode in
    if text_in value ("return" ∷ "revise" ∷ [])
    then ok in_research
    else if text_in value ("archive" ∷ "reject" ∷ [])
    then ok rejected
    else err (GateError.unknown_fail_mode mode)

-- `assert_not_self_approve`
unfoldable pub assert_not_self_approve : String → String → String → Result GateError (Unit {0})
assert_not_self_approve author actor gate =
    if not (truthy (some (strip author))) || not (truthy (some (strip actor)))
    then err GateError.no_self_approve
    else if str_eq (norm actor) (norm author)
    then (if str_eq gate "skeptic"
        then err GateError.author_cannot_be_sole_skeptic
        else err GateError.no_self_approve)
    else if str_eq gate "principal_override"
        && not (text_in (norm actor) ("principal" ∷ "cio" ∷ []))
    then err GateError.only_principal_overrides
    else ok tt

-- The arguments of `validate_transition`.
pub record Request : Type 0 where
  pub current : String
  pub target : String
  pub risk_decision : String
  pub principal_override : Bool
  pub actor : Option String
  pub author : Option String
  pub gate : Option String

-- `if condition: assert_not_self_approve(...)`
abbrev approve_when : Bool → String → String → String → Result GateError (Unit {0})
approve_when c author actor gate = if c then assert_not_self_approve author actor gate else ok tt

-- `validate_transition` once its three texts are read.
unfoldable pub check_transition :
    Request → ThesisStatus → ThesisStatus → RiskDecision → Result GateError (Unit {0})
check_transition r current target decision = do
  raise_if (is_status current rejected && not (is_status target rejected))
      GateError.rejected_is_terminal
  raise_if (is_status current retired && not (is_status target retired))
      GateError.retired_is_terminal
  raise_if (is_status target live) GateError.paper_live_later
  raise_if (not (in_phase4 target) && not (is_status target live)) GateError.status_not_available
  approve_when (truthy r.author && truthy r.actor && truthy r.gate) (text_of r.author)
      (text_of r.actor) (text_of r.gate)
  raise_if (is_block decision && is_progression target && not r.principal_override)
      GateError.risk_block_terminal
  approve_when (r.principal_override && truthy r.author && truthy r.actor) (text_of r.author)
      (text_of r.actor) "principal_override"
  raise_if (not (is_status target current) && not (allowed current target))
      GateError.illegal_transition

-- `validate_transition`
unfoldable pub validate_transition : Request → Result GateError (Unit {0})
validate_transition r = do
  target ← or_raise (parse_status (norm r.target)) (GateError.unknown_status r.target)
  current ← or_raise (parse_status (norm r.current)) (GateError.unknown_status r.current)
  decision ←
      or_raise (parse_decision (norm (or_default r.risk_decision "pending")))
        (GateError.unknown_risk_decision r.risk_decision)
  check_transition r current target decision

-- `TransitionLog`: the row handed to the Market Memory hook.
pub record TransitionLog : Type 0 where
  pub actor : String
  pub reason : String
  pub from_status : String
  pub to_status : String
  pub thesis_slug : Option String
  pub risk_decision : String
  pub principal_override : Bool

-- `TransitionHook`: what it raises for a row, if anything, and the rows that it has taken.
pub record TransitionHook : Type 0 where
  pub raises : TransitionLog → Option String
  pub rows : List TransitionLog

-- `emit_transition`, with the hook that it leaves.
abbrev pub emit_transition :
    TransitionLog → Option TransitionHook → Result GateError (Unit {0}) × Option TransitionHook
emit_transition log none = (ok tt, none)
emit_transition log (some hook) = elim (hook.raises log) [
  | some problem ↦ (err (GateError.hook_raised problem), some hook)
  | none ↦ (ok tt, some (record hook { rows = hook.rows ++ log ∷ [] }))
]
