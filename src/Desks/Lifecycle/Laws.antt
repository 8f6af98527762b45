-- ===== src/Desks/Lifecycle/Laws.antt =====
-- What `record_transition` leaves in the context.
use market_memory.Prelude.{◌≡◌, [], ◌∷◌, ◌++◌, ok, err, arith}
use market_memory.Research.Errors.{GateError}
use market_memory.Research.StateMachine.{TransitionLog, validate_transition}
use market_memory.Desks.Lifecycle.{
  DeskContext, Transition, request_of, log_of, with_status, record_transition,
}

pub record_transition_illegal :
    (ctx : DeskContext) (t : Transition) (e : GateError)
    → validate_transition (request_of t) ≡ err e
    → record_transition ctx t ≡ (err e, ctx)
unfolding record_transition
record_transition_illegal ctx t e h = ground arith

-- If record_transition returns a log row, then the transition is legal, the row is the last of the
-- events and all others are kept, and the thesis has the target status.
pub record_transition_legal :
    (ctx : DeskContext) (t : Transition) (log : TransitionLog)
    → (record_transition ctx t).0 ≡ ok log
    → let ctx' = (record_transition ctx t).1 in
      (validate_transition (request_of t) ≡ ok tt)
      × (ctx'.events ≡ ctx.events ++ log ∷ [])
      × (ctx'.thesis ≡ with_status ctx.thesis t.to_status)
      × (log ≡ log_of ctx t)
unfolding record_transition
record_transition_legal ctx t log h = ground arith
