-- ===== src/Research/StateMachine/Reach.antt =====
-- Which statuses a thesis can still be brought to.
use market_memory.Prelude.{lower, strip, norm, ◌≡◌, refl, ◌≢◌, inr, true, false, none, some, arith}
use market_memory.Research.Enums.{
  ThesisStatus, allow, draft, in_research, in_skeptic, paper, live, rejected, retired, status_value,
  parse_status, parse_decision,
}
use market_memory.Research.StateMachine.{allowed, Request}
use market_memory.Research.StateMachine.Laws.{Reads, validate_transition_complete}
use market_memory.Research.StateMachine.Traces.{Advance, History, start, step}

-- A request of the coordinator with a Risk ALLOW.
abbrev plain : ThesisStatus → ThesisStatus → Request
plain c t = record {
  current = status_value c;
  target = status_value t;
  risk_decision = "allow";
  principal_override = false;
  actor = some "Coordinator";
  author = none;
  gate = none;
}

read_value : (s : ThesisStatus) → parse_status (norm (status_value s)) ≡ some s
unfolding norm strip lower parse_status
read_value draft = refl
read_value in_research = refl
read_value in_skeptic = refl
read_value paper = refl
read_value live = refl
read_value rejected = refl
read_value retired = refl

plain-Reads : (c t : ThesisStatus) → Reads (plain c t) c t allow
unfolding norm strip lower parse_decision
plain-Reads c t = record {
  current_read = read_value c;
  target_read = read_value t;
  decision_read = refl;
}

plain-Advance : (c t : ThesisStatus) → allowed c t ≡ true → t ≢ live → Advance c t allow
plain-Advance c t edge n = record {
  request = plain c t;
  reads = plain-Reads c t;
  accepted =
      validate_transition_complete (plain c t) c t allow (plain-Reads c t) (inr edge) n refl refl
        (λ e. ground arith);
}

-- A history goes on along an edge.
extend :
    {s t : ThesisStatus} (u : ThesisStatus)
    → History s t
    → allowed t u ≡ true
    → u ≢ live
    → History s u
extend u h edge n = step h allow (plain-Advance _ u edge n)

paper_from : (s : ThesisStatus) → s ≢ live → s ≢ rejected → s ≢ retired → History s paper
paper_from draft n m o =
    extend paper
      (extend in_skeptic (extend in_research start refl (λ e. ground arith)) refl
        (λ e. ground arith))
      refl (λ e. ground arith)
paper_from in_research n m o =
    extend paper (extend in_skeptic start refl (λ e. ground arith)) refl (λ e. ground arith)
paper_from in_skeptic n m o = extend paper start refl (λ e. ground arith)
paper_from paper n m o = start
paper_from live n m o = absurd (n refl)
paper_from rejected n m o = absurd (m refl)
paper_from retired n m o = absurd (o refl)

-- From every status but live, rejected and retired there is a history of accepted transitions to
-- paper, and one to retired.
pub open_thesis_reaches :
    (s : ThesisStatus) → s ≢ live → s ≢ rejected → s ≢ retired → History s paper × History s retired
open_thesis_reaches s n m o =
    let h = paper_from s n m o in (h, extend retired h refl (λ e. ground arith))
