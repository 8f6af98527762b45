-- ===== src/Research/StateMachine/Traces.antt =====
-- Histories of a thesis: sequences of requests that `validate_transition` accepts.
use market_memory.Prelude.{
  ◌∙◌, Bool-cases, sym, ◌≡◌, refl, ◌≢◌, ◌⊎◌, inl, inr, Bool, true, false, ◌||◌, ok, arith,
}
use market_memory.Research.Enums.{
  ThesisStatus, draft, in_research, in_skeptic, paper, live, rejected, retired, RiskDecision, block,
}
use market_memory.Research.StateMachine.{
  allowed, is_progression, is_status, Request, validate_transition,
}
use market_memory.Research.StateMachine.Laws.{
  Reads, check_transition_sound, validate_transition-Reads,
}

-- One accepted request, with the members that its texts name.
pub record Advance (c t : ThesisStatus) (d : RiskDecision) : Type 0 where
  pub request : Request
  pub reads : Reads request c t d
  pub accepted : validate_transition request ≡ ok tt

pub data History (s : ThesisStatus) : ThesisStatus → Type 0 where
  start : History s s
  step : {t u : ThesisStatus} → History s t → (d : RiskDecision) → Advance t u d → History s u

pub advance-edge :
    {c t : ThesisStatus} {d : RiskDecision}
    → Advance c t d
    → (t ≢ live) × ((t ≡ c) ⊎ (allowed c t ≡ true))
advance-edge {c} {t} {d} a =
    let sound =
      check_transition_sound a.request c t d
        (sym (validate_transition-Reads a.request c t d a.reads) ∙ a.accepted) in
    (sound.0, sound.1)

-- Every state on the way, the last one included.
abbrev pub visits : {s t : ThesisStatus} → ThesisStatus → History s t → Bool
visits {s} u start = is_status s u
visits v (step {u = u} h d a) = visits v h || is_status u v

-- A history of accepted transitions from a status other than live does not end in live.
pub live_unreachable : {s t : ThesisStatus} → s ≢ live → History s t → t ≢ live
live_unreachable n start = n
live_unreachable n (step h d a) = (advance-edge a).0

-- A history of accepted transitions from rejected, or from retired, ends where it began.
pub terminal_absorbs : {s t : ThesisStatus} → (s ≡ rejected) ⊎ (s ≡ retired) → History s t → t ≡ s
terminal_absorbs h start = refl
terminal_absorbs h (step h' d a) = ground (arith, advance-edge a, terminal_absorbs h h')

-- A thesis that never was in_skeptic is a draft, in research or rejected.
abbrev IsEarly : ThesisStatus → Type 0
IsEarly t = (t ≡ draft) ⊎ (t ≡ in_research) ⊎ (t ≡ rejected)

IsEarly-before_skeptic :
    {t : ThesisStatus} (h : History draft t) → visits in_skeptic h ≡ false → IsEarly t
IsEarly-before_skeptic start v = inl refl
IsEarly-before_skeptic (step h d a) v = ground (arith, advance-edge a, IsEarly-before_skeptic h)

-- A history of accepted transitions from draft to paper or to retired visits in_skeptic.
pub paper_needs_skeptic :
    {t : ThesisStatus} (h : History draft t)
    → (t ≡ paper) ⊎ (t ≡ retired)
    → visits in_skeptic h ≡ true
paper_needs_skeptic h p = elim (Bool-cases (visits in_skeptic h)) [
  | inl e ↦ e
  | inr e ↦ absurd (ground (arith, IsEarly-before_skeptic h e))
]

-- Every request of the history carries a BLOCK and no override.
abbrev pub Blocked : {s t : ThesisStatus} → History s t → Type 0
Blocked start = Unit
Blocked (step h d a) = Blocked h × (d ≡ block) × (a.request.principal_override ≡ false)

advance-blocked :
    {c t : ThesisStatus} {d : RiskDecision} (a : Advance c t d)
    → d ≡ block
    → a.request.principal_override ≡ false
    → is_progression t ≡ false
advance-blocked {c} {t} {d} a b o = ground (
  arith,
  check_transition_sound a.request c t d
      (sym (validate_transition-Reads a.request c t d a.reads) ∙ a.accepted),
)

-- A history of accepted transitions from draft in which every request carries a Risk BLOCK and no
-- override ends in draft, in_research or rejected.
pub block_is_terminal : {t : ThesisStatus} (h : History draft t) → Blocked h → IsEarly t
block_is_terminal start b = inl refl
block_is_terminal (step h d a) b =
    ground (arith, advance-edge a, advance-blocked a b.1 b.2, block_is_terminal h b.0)
