-- ===== src/Research/Enums.antt =====
-- packages/common/src/mm_common/enums.py: the closed sets of statuses, verdicts and decisions.
use market_memory.Prelude.{
  ◌≡◌, refl, Bool, true, false, Option, none, some, String, str_eq, if◌then◌else◌,
}

pub data ThesisStatus : Type 0 where
  draft in_research in_skeptic paper live rejected retired : ThesisStatus

pub data RiskDecision : Type 0 where
  pending allow block : RiskDecision

pub data SkepticVerdict : Type 0 where
  pass revise reject : SkepticVerdict

pub ThesisStatus-discrete : Discrete ThesisStatus
ThesisStatus-discrete = hlevel

-- `ThesisStatus.X.value`
abbrev pub status_value : ThesisStatus → String
status_value draft = "draft"
status_value in_research = "in_research"
status_value in_skeptic = "in_skeptic"
status_value paper = "paper"
status_value live = "live"
status_value rejected = "rejected"
status_value retired = "retired"

abbrev pub decision_value : RiskDecision → String
decision_value pending = "pending"
decision_value allow = "allow"
decision_value block = "block"

abbrev pub verdict_value : SkepticVerdict → String
verdict_value pass = "pass"
verdict_value revise = "revise"
verdict_value reject = "reject"

-- The member of `THESIS_STATUS_VALUES` that the text is, if it is one.
unfoldable pub parse_status : String → Option ThesisStatus
parse_status s =
    if str_eq s "draft"
    then some draft
    else if str_eq s "in_research"
    then some in_research
    else if str_eq s "in_skeptic"
    then some in_skeptic
    else if str_eq s "paper"
    then some paper
    else if str_eq s "live"
    then some live
    else if str_eq s "rejected"
    then some rejected
    else if str_eq s "retired"
    then some retired
    else none

unfoldable pub parse_decision : String → Option RiskDecision
parse_decision s =
    if str_eq s "pending"
    then some pending
    else if str_eq s "allow"
    then some allow
    else if str_eq s "block"
    then some block
    else none

unfoldable pub parse_verdict : String → Option SkepticVerdict
parse_verdict s =
    if str_eq s "pass"
    then some pass
    else if str_eq s "revise"
    then some revise
    else if str_eq s "reject"
    then some reject
    else none

-- `PHASE4_STATUS_VALUES`: all but live.
abbrev pub in_phase4 : ThesisStatus → Bool
in_phase4 live = false
in_phase4 _ = true

-- `STATUSES_REQUIRING_EVIDENCE`
abbrev pub requires_evidence : ThesisStatus → Bool
requires_evidence in_skeptic = true
requires_evidence paper = true
requires_evidence live = true
requires_evidence _ = false

pub parse_status-value : (s : ThesisStatus) → parse_status (status_value s) ≡ some s
unfolding parse_status
parse_status-value draft = refl
parse_status-value _ = refl
