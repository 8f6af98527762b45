-- ===== src/Desks/SkepticGate.antt =====
-- packages/desks/src/mm_desks/skeptic.py and invalidation.py: the adversarial checklist, the
-- verdict, and the transition that it records. The horizon in days, which the code reads with a
-- regular expression, and the look-back are numbers of hundredths of a day.
pub mod Laws
use Prim.Native.String.{◌++◌ as append}
use market_memory.Prelude.{
  ℕ, ◌*◌, Bool, true, false, ◌&&◌, ◌||◌, not, Option, none, some, List, [], ◌∷◌, ◌++◌, String,
  str_eq, text_in, if◌then◌else◌, norm, strip, truthy, or_default, leb, Result, ok, err,
}
use market_memory.Research.Enums.{SkepticVerdict, pass, revise, reject, parse_verdict, status_value}
use market_memory.Research.Errors.{GateError}
use market_memory.Research.StateMachine.{TransitionLog, skeptic_fail_target}
use market_memory.Desks.Lifecycle.{
  ThesisRef, WorkspaceRef, DeskContext, Transition, record_transition, current_status,
}

-- The fields of `ThesisSnapshot` that the gate reads.
pub record Thesis : Type 0 where
  pub ref : ThesisRef
  pub author : String
  pub reviewer : String
  pub has_evidence : Bool
  pub look_ahead : Bool
  pub leakage : Bool
  pub already_priced : Bool
  pub invalidation_quality : String
  pub invalidation : String
  pub invalidation_kind : String
  pub horizon : Option ℕ
  pub lookback : Option ℕ

pub data FailMode : Type 0 where
  return archive : FailMode

abbrev pub fail_value : FailMode → String
fail_value return = "return"
fail_value archive = "archive"

-- A row of the checklist.
pub record Check : Type 0 where
  pub code : String
  pub passed : Bool
  pub fail_mode : FailMode

-- `invalidation_lookback_ok`: the look-back is at least half the horizon.
unfoldable pub invalidation_lookback_ok : Option ℕ → Option ℕ → Bool
invalidation_lookback_ok (some lookback) (some horizon) = leb horizon (2 * lookback)
invalidation_lookback_ok _ _ = true

-- `daily_print_on_multiday`
unfoldable pub daily_print_on_multiday : Option ℕ → String → Bool
daily_print_on_multiday none kind = false
daily_print_on_multiday (some horizon) kind =
    not (leb horizon 100)
    && text_in (norm kind) ("daily_print" ∷ "daily-print" ∷ "single_daily_print" ∷ [])

-- `flow_single_print`
unfoldable pub flow_single_print : String → Bool
flow_single_print kind =
    text_in (norm kind) ("flow_single_print" ∷ "single_print" ∷ "single_flow_print" ∷ [])

abbrev check : String → Bool → FailMode → Check
check code passed mode = record { code = code; passed = passed; fail_mode = mode }

-- `evaluate_invalidation`
unfoldable pub evaluate_invalidation : Option ℕ → Option ℕ → String → List Check
evaluate_invalidation horizon lookback kind =
    check "invalidation_lookback" (invalidation_lookback_ok lookback horizon) return
    ∷ check "daily_print_multiday" (not (daily_print_on_multiday horizon kind)) return
    ∷ check "flow_invalidator_rolling" (not (flow_single_print kind)) return
    ∷ []

abbrev bad_qualities : List String
bad_qualities = "circular" ∷ "poor" ∷ "placeholder" ∷ "missing" ∷ "fail" ∷ []

abbrev placeholders : List String
placeholders = "" ∷ "-" ∷ "n/a" ∷ "na" ∷ "none" ∷ "null" ∷ "tbd" ∷ "todo" ∷ "?" ∷ "unknown" ∷ []

abbrev is_circular : Thesis → Bool
is_circular t = text_in (norm (or_default t.invalidation_quality "ok")) bad_qualities

abbrev pub is_independent : String → String → Bool
is_independent author reviewer =
    let reviewer' = or_default reviewer "Independent Skeptic" in
    truthy (some (strip reviewer')) && not (str_eq (norm reviewer') (norm author))

-- `_checklist`
unfoldable pub checklist : Option Thesis → List Check
checklist none =
    check "independent_reviewer" (is_independent "" "") return
    ∷ check "evidence_present" false return
    ∷ check "look_ahead" true return
    ∷ check "leakage" true return
    ∷ check "invalidation_quality" false return
    ∷ check "already_priced" true return
    ∷ evaluate_invalidation none none ""
checklist (some t) =
    check "independent_reviewer" (is_independent t.author t.reviewer) return
    ∷ check "evidence_present" t.has_evidence return
    ∷ check "look_ahead" (not t.look_ahead) return
    ∷ check "leakage" (not t.leakage) return
    ∷ check "invalidation_quality"
        (not (is_circular t) && not (text_in (norm t.invalidation) placeholders))
        (if is_circular t then archive else return)
    ∷ check "already_priced" (not t.already_priced) return
    ∷ evaluate_invalidation t.horizon t.lookback t.invalidation_kind

-- `failed = [row for row in items if not row["ok"]]`
unfoldable pub failed_checks : List Check → List Check
failed_checks [] = []
failed_checks (c ∷ cs) = let rest = failed_checks cs in if c.passed then rest else c ∷ rest

unfoldable pub any_archive : List Check → Bool
any_archive [] = false
any_archive (c ∷ cs) = (elim c.fail_mode [ archive ↦ true | return ↦ false ]) || any_archive cs

-- `_forced`
unfoldable pub forced : String → Option SkepticVerdict
forced force =
    if str_eq force "return"
    then some revise
    else if str_eq force "archive"
    then some reject
    else parse_verdict force

abbrev decide_failed : List Check → SkepticVerdict × Option FailMode
decide_failed [] = (pass, none)
decide_failed (c ∷ cs) =
    if any_archive (c ∷ cs) then (reject, some archive) else (revise, some return)

abbrev drop_forced_pass : Option SkepticVerdict → List Check → Option SkepticVerdict
drop_forced_pass (some pass) (c ∷ cs) = none
drop_forced_pass force failed = force

-- The verdict and its fail mode, from the forced verdict and the failed rows.
unfoldable pub decide : Option SkepticVerdict → List Check → SkepticVerdict × Option FailMode
decide force failed = elim (drop_forced_pass force failed) [
  | none ↦ decide_failed failed
  | some v ↦ elim v [
    | pass ↦ (pass, none)
    | revise ↦ (revise, some return)
    | reject ↦ (reject, some archive)
  ]
]

pub data Status : Type 0 where
  healthy gate_failed : Status
  -- An exception that is no GateError leaves `run`, without an output.
  raised : GateError → Status

-- The output of `run`; no verdict stands for `failed_gate`.
pub record GateRun : Type 0 where
  pub verdict : Option SkepticVerdict
  pub status : Status
  pub ctx : DeskContext

abbrev ref_of : Option Thesis → Option ThesisRef
ref_of none = none
ref_of (some t) = some t.ref

abbrev author_of : Option Thesis → String
author_of none = "Research"
author_of (some t) = t.author

abbrev reviewer_of : String → Option Thesis → String
reviewer_of display none = display
reviewer_of display (some t) = t.reviewer

join_codes : List Check → String
join_codes [] = ""
join_codes (c ∷ []) = c.code
join_codes (c ∷ cs) = append c.code (append "; " (join_codes cs))

-- The reason of the row: of a pass by the status before, of a fail by the failed rows.
unfoldable pub gate_reason : Option FailMode → String → List Check → String
unfolding join_codes
gate_reason none from failed =
    if str_eq from "in_skeptic"
    then "Skeptic pass"
    else "Skeptic pass; remain at in_skeptic (paper is not auto-opened)"
gate_reason (some mode) from [] = append "Skeptic FAIL " (fail_value mode)
gate_reason (some mode) from (c ∷ cs) =
    append "Skeptic FAIL " (append (fail_value mode) (append ": " (join_codes (c ∷ cs))))

abbrev gate_transition : String → Option Thesis → String → String → String → Transition
gate_transition display thesis reason from to = record {
  from_status = from;
  to_status = to;
  actor = reviewer_of display thesis;
  reason = reason;
  risk_decision = "pending";
  principal_override = false;
  author = some (author_of thesis);
  gate = some "skeptic";
}

-- The target status of a verdict.
abbrev gate_target : SkepticVerdict × Option FailMode → Result GateError String
gate_target (_, none) = ok "in_skeptic"
gate_target (_, some mode) = elim (skeptic_fail_target (fail_value mode)) [
  | ok s ↦ ok (status_value s)
  | err e ↦ err e
]

-- `except GateError`
abbrev failed_status : GateError → Status
failed_status (GateError.field_not_found f) = raised (GateError.field_not_found f)
failed_status GateError.index_error = raised GateError.index_error
failed_status e = gate_failed

-- `run`, with the forced verdict of the fixture.
unfoldable pub run : String → String → Option Thesis → WorkspaceRef → List TransitionLog → GateRun
run display force thesis workspace events =
    let ctx : DeskContext = record {
      thesis = ref_of thesis;
      workspace = workspace;
      events = events;
    } in
    let failed = failed_checks (checklist thesis) in
    let decided = decide (forced force) failed in
    let from = current_status ctx in
    elim (gate_target decided) [
      | err e ↦ record { verdict = none; status = failed_status e; ctx = ctx }
      | ok target ↦
          let (recorded, ctx') =
            record_transition ctx
              (gate_transition display thesis (gate_reason decided.1 from failed) from target) in
          elim recorded [
            | err e ↦ record { verdict = none; status = failed_status e; ctx = ctx' }
            | ok _ ↦ record { verdict = some decided.0; status = healthy; ctx = ctx' }
          ]
    ]
