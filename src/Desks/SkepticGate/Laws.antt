-- ===== src/Desks/SkepticGate/Laws.antt =====
-- The gate never stamps a failed checklist with a pass.
use market_memory.Prelude.{
  ◌≡◌, ◌≢◌, true, false, Bool, Option, none, some, List, [], ◌∷◌, String, norm, eq_iff, or_default,
  arith, not,
}
use market_memory.Research.Enums.{SkepticVerdict, pass, revise, reject}
use market_memory.Research.StateMachine.{TransitionLog}
use market_memory.Desks.Lifecycle.{WorkspaceRef}
use market_memory.Desks.SkepticGate.{
  Thesis, Check, checklist, failed_checks, any_archive, decide, forced, run, is_independent,
}

-- A pass is decided only where nothing failed, forced or not.
decide-pass :
    (force : Option SkepticVerdict) (failed : List Check)
    → (decide force failed).0 ≡ pass
    → failed ≡ []
unfolding decide
decide-pass force failed h = ground arith

pub decide_unforced :
    (failed : List Check)
    → ((decide none failed).0 ≡ pass → failed ≡ [])
      × ((decide none failed).0 ≡ reject → any_archive failed ≡ true)
      × ((decide none failed).0 ≡ revise → any_archive failed ≡ false)
unfolding decide
decide_unforced failed = ground arith

-- What a checklist without a failed row says of the thesis.
pub record IsSound (t : Thesis) : Type 0 where
  pub independent : norm (or_default t.reviewer "Independent Skeptic") ≢ norm t.author
  pub evidence : t.has_evidence ≡ true
  pub no_look_ahead : t.look_ahead ≡ false
  pub no_leakage : t.leakage ≡ false
  pub not_priced : t.already_priced ≡ false

not-true : (b : Bool) → not b ≡ true → b ≡ false
not-true b h = ground arith

failed_checks-nil :
    (c : Check) (cs : List Check)
    → failed_checks (c ∷ cs) ≡ []
    → (c.passed ≡ true) × (failed_checks cs ≡ [])
unfolding failed_checks
failed_checks-nil c cs h = ground arith

is_independent-ne :
    (author reviewer : String)
    → is_independent author reviewer ≡ true
    → norm (or_default reviewer "Independent Skeptic") ≢ norm author
is_independent-ne author reviewer h =
    let r = or_default reviewer "Independent Skeptic" in
    ground (arith, eq_iff (norm r) (norm author))

checklist-IsSound : (t : Thesis) → failed_checks (checklist (some t)) ≡ [] → IsSound t
unfolding checklist
checklist-IsSound t h =
    let (reviewed, h₁) = failed_checks-nil _ _ h in
    let (linked, h₂) = failed_checks-nil _ _ h₁ in
    let (looked, h₃) = failed_checks-nil _ _ h₂ in
    let (leaked, h₄) = failed_checks-nil _ _ h₃ in
    let (quality, h₅) = failed_checks-nil _ _ h₄ in
    let (priced, h₆) = failed_checks-nil _ _ h₅ in
    record {
      independent = is_independent-ne t.author t.reviewer reviewed;
      evidence = linked;
      no_look_ahead = not-true t.look_ahead looked;
      no_leakage = not-true t.leakage leaked;
      not_priced = not-true t.already_priced priced;
    }

run-decided :
    (display force : String) (thesis : Option Thesis) (w : WorkspaceRef)
    (events : List TransitionLog) (v : SkepticVerdict)
    → (run display force thesis w events).verdict ≡ some v
    → (decide (forced force) (failed_checks (checklist thesis))).0 ≡ v
unfolding run
run-decided display force thesis w events v h = ground arith

-- If the skeptic gate stamps a thesis with pass, forced or not, then its reviewer is not its
-- author (up to case and surrounding space), it has evidence, and no look-ahead, leakage or
-- priced-in flag.
pub run-pass-IsSound :
    (display force : String) (t : Thesis) (w : WorkspaceRef) (events : List TransitionLog)
    → (run display force (some t) w events).verdict ≡ some pass
    → IsSound t
run-pass-IsSound display force t w events h = checklist-IsSound t (
    decide-pass (forced force) (failed_checks (checklist (some t)))
      (run-decided display force (some t) w events pass h))

-- Without a thesis the skeptic gate does not stamp a pass, forced or not.
pub no_thesis_no_pass :
    (display force : String) (w : WorkspaceRef) (events : List TransitionLog)
    → (run display force none w events).verdict ≢ some pass
unfolding checklist failed_checks
no_thesis_no_pass display force w events h = ground (
  arith,
  decide-pass (forced force) (failed_checks (checklist none))
      (run-decided display force none w events pass h),
)
