-- ===== src/Desks/Lifecycle.antt =====
-- packages/desks/src/mm_desks/lifecycle.py: lifecycle rows and status changes from desk runners.
-- The context is mutated before a later step may raise, so a call returns it with its result.
pub mod Laws
use market_memory.Prelude.{
  Bool, true, false, Option, none, some, List, [], ◌∷◌, ◌++◌, String, norm, truthy, Result, ok, err,
  if◌then◌else◌,
}
use market_memory.Research.Errors.{GateError}
use market_memory.Research.StateMachine.{Request, TransitionLog, validate_transition}
use market_memory.Research.Workspace.{Workspace}
use market_memory.Research.Lifecycle.{advance_status}

-- The two fields of `ThesisSnapshot` that a transition reads and writes.
pub record ThesisRef : Type 0 where
  pub slug : String
  pub status : String

-- `ctx.workspace`: none, a path that is no directory, or a directory.
pub data WorkspaceRef : Type 0 where
  no_workspace missing : WorkspaceRef
  at : Workspace → WorkspaceRef

-- `DeskContext`
pub record DeskContext : Type 0 where
  pub thesis : Option ThesisRef
  pub workspace : WorkspaceRef
  pub events : List TransitionLog

-- The keyword arguments of `record_transition`.
pub record Transition : Type 0 where
  pub from_status : String
  pub to_status : String
  pub actor : String
  pub reason : String
  pub risk_decision : String
  pub principal_override : Bool
  pub author : Option String
  pub gate : Option String

abbrev pub request_of : Transition → Request
request_of t = record {
  current = t.from_status;
  target = t.to_status;
  risk_decision = t.risk_decision;
  principal_override = t.principal_override;
  actor = some t.actor;
  author = t.author;
  gate = t.gate;
}

abbrev slug_of : Option ThesisRef → Option String
slug_of none = none
slug_of (some r) = some r.slug

-- `build_transition_log`
abbrev pub log_of : DeskContext → Transition → TransitionLog
log_of ctx t = record {
  actor = t.actor;
  reason = t.reason;
  from_status = t.from_status;
  to_status = t.to_status;
  thesis_slug = slug_of ctx.thesis;
  risk_decision = t.risk_decision;
  principal_override = t.principal_override;
}

abbrev pub with_status : Option ThesisRef → String → Option ThesisRef
with_status none s = none
with_status (some r) s = some (record r { status = s })

-- `_apply_workspace`
unfoldable pub apply_workspace :
    WorkspaceRef → Transition → Result GateError (Unit {0}) × WorkspaceRef
apply_workspace no_workspace t = (ok tt, no_workspace)
apply_workspace missing t = (err GateError.workspace_missing, missing)
apply_workspace (at w) t =
    let a =
      advance_status w t.to_status t.actor t.reason t.risk_decision t.principal_override none in
    elim a.result [ ok _ ↦ (ok tt, at a.workspace) | err e ↦ (err e, at a.workspace) ]

-- `record_event`
unfoldable pub record_event : DeskContext → Transition → TransitionLog × DeskContext
record_event ctx t = let log = log_of ctx t in (log, record ctx { events = ctx.events ++ log ∷ [] })

-- `record_transition`
unfoldable pub record_transition :
    DeskContext → Transition → Result GateError TransitionLog × DeskContext
record_transition ctx t = elim (validate_transition (request_of t)) [
  | err e ↦ (err e, ctx)
  | ok _ ↦
      let logged = record ctx { events = ctx.events ++ log_of ctx t ∷ [] } in
      let (applied, workspace) = apply_workspace ctx.workspace t in
      elim applied [
        | err e ↦ (err e, record logged { workspace = workspace })
        | ok _ ↦ (
          ok (log_of ctx t),
          record logged { workspace = workspace; thesis = with_status ctx.thesis t.to_status },
        )
      ]
]

-- `current_status`
unfoldable pub current_status : DeskContext → String
current_status ctx = elim ctx.thesis [
  | none ↦ "draft"
  | some r ↦ if truthy (some r.status) then norm r.status else "draft"
]
