-- ===== src/Research/StateMachine/Laws.antt =====
-- What one accepted transition request satisfies, and which requests are refused.
use market_memory.Prelude.{
  err, false, none, ◌≡◌, ◌∙◌, ◌≢◌, ◌⊎◌, true, some, norm, arith, ok, truthy, or_default, eq_iff,
  String,
}
use market_memory.Research.Enums.{
  retired, rejected, ThesisStatus, live, RiskDecision, block, parse_status, parse_decision,
}
use market_memory.Research.StateMachine.{
  GateError, allowed, is_progression, is_status, text_of, Request, assert_not_self_approve,
  check_transition, validate_transition,
}

-- The texts of the request name these members.
pub record Reads (r : Request) (c t : ThesisStatus) (d : RiskDecision) : Type 0 where
  pub current_read : parse_status (norm r.current) ≡ some c
  pub target_read : parse_status (norm r.target) ≡ some t
  pub decision_read : parse_decision (norm (or_default r.risk_decision "pending")) ≡ some d

is_status-eq : (c t : ThesisStatus) → is_status c t ≡ true → c ≡ t
is_status-eq c t h = ground arith

-- A request that the code accepts once its texts are read.
pub check_transition_sound :
    (r : Request) (c t : ThesisStatus) (d : RiskDecision)
    → check_transition r c t d ≡ ok tt
    → (t ≢ live)
      × ((t ≡ c) ⊎ (allowed c t ≡ true))
      × (d ≡ block → is_progression t ≡ true → r.principal_override ≡ true)
unfolding check_transition
check_transition_sound r c t d h = ground arith

pub validate_transition-Reads :
    (r : Request) (c t : ThesisStatus) (d : RiskDecision)
    → Reads r c t d
    → validate_transition r ≡ check_transition r c t d
unfolding validate_transition
validate_transition-Reads r c t d h = ground arith

pub validate_transition-read :
    (r : Request)
    → validate_transition r ≡ ok tt
    → (c : ThesisStatus) × (t : ThesisStatus) × (d : RiskDecision) × Reads r c t d
unfolding validate_transition
validate_transition-read r h = ground arith

same_text_refused :
    (author actor gate : String)
    → norm actor ≡ norm author
    → assert_not_self_approve author actor gate ≢ ok tt
unfolding assert_not_self_approve
same_text_refused author actor gate h = ground (arith, eq_iff (norm actor) (norm author))

-- A request with an author, an actor and a gate, whose actor is the author up to case and
-- surrounding space, is not accepted.
pub no_self_approval :
    (r : Request)
    → truthy r.author ≡ true
    → truthy r.actor ≡ true
    → truthy r.gate ≡ true
    → norm (text_of r.actor) ≡ norm (text_of r.author)
    → validate_transition r ≢ ok tt
unfolding validate_transition check_transition
no_self_approval r a b g same h =
    ground (arith, same_text_refused (text_of r.author) (text_of r.actor) (text_of r.gate) same)

-- A request whose texts name two statuses and a decision is accepted, if the target is the current
-- status or one edge of ALLOWED_TRANSITIONS away, the target is not live, no gate is named, no
-- override is asked for, and the decision is not BLOCK.
pub validate_transition_complete :
    (r : Request) (c t : ThesisStatus) (d : RiskDecision)
    → Reads r c t d
    → (t ≡ c) ⊎ (allowed c t ≡ true)
    → t ≢ live
    → r.gate ≡ none
    → r.principal_override ≡ false
    → d ≢ block
    → validate_transition r ≡ ok tt
unfolding check_transition
validate_transition_complete r c t d reads edge notlive nogate noover unblocked =
    validate_transition-Reads r c t d reads ∙ ground arith

-- The refusals, in the order of the source: the terminal states, live, then a BLOCK without an
-- override, when no gate is named.
pub check_transition-terminal :
    (r : Request) (c t : ThesisStatus) (d : RiskDecision)
    → (c ≡ rejected) ⊎ (c ≡ retired)
    → t ≢ c
    → (check_transition r c t d ≡ err GateError.rejected_is_terminal)
      ⊎ (check_transition r c t d ≡ err GateError.retired_is_terminal)
unfolding check_transition
check_transition-terminal r c t d h n = ground arith
