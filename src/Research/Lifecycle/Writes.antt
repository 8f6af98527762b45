-- ===== src/Research/Lifecycle/Writes.antt =====
-- What a status change writes, and that it is read back.
use market_memory.Research.StateMachine.{emit_transition, allowed, Request, validate_transition}
use market_memory.Research.StateMachine.Laws.{
  validate_transition-read, validate_transition-Reads, check_transition_sound,
}
use market_memory.Prelude.{
  ap, ◌∙◌, sym, norm_idem, ◌⊎◌, ◌≢◌, Option, Bool, err, truthy, ◌≡◌, refl, true, some, norm, strip,
  eq_iff, arith, ok, String,
}
use market_memory.Research.Enums.{live, ThesisStatus, parse_status, status_value, draft}
use market_memory.Research.Markdown.{Document, get_field, set_field, first_token}
use market_memory.Research.Markdown.Laws.{get_field-set_field}
use market_memory.Research.Workspace.{Workspace, exists, read_status}
use market_memory.Research.Lifecycle.{
  Request, request_of, validate_transition, read_author_role, TransitionHook, status_or_draft,
  assert_can_mark, Marking, GateError, advance_status, write_status,
}

-- A status reads back as its own first token.
first_token-status :
    (s : ThesisStatus) → first_token (some (strip (status_value s))) ≡ ok (status_value s)
unfolding first_token strip norm
first_token-status draft = refl
first_token-status _ = refl

parse_status-eq : (t : String) (s : ThesisStatus) → parse_status t ≡ some s → t ≡ status_value s
unfolding parse_status
parse_status-eq t s h = ground (
  arith,
  eq_iff t "draft",
  eq_iff t "in_research",
  eq_iff t "in_skeptic",
  eq_iff t "paper",
  eq_iff t "live",
  eq_iff t "rejected",
  eq_iff t "retired",
)

first_token-set_field :
    (d e : Document) (f : String) (s : ThesisStatus)
    → set_field d f (status_value s) ≡ ok e
    → first_token (get_field e f) ≡ ok (status_value s)
first_token-set_field d e f s h =
    rw (get_field-set_field d f (status_value s) h) (first_token-status s)

truthy-status_value : (s : ThesisStatus) → truthy (some (status_value s)) ≡ true
truthy-status_value draft = refl
truthy-status_value _ = refl

-- What `write_status` leaves in a workspace with an intent is what `read_status` finds.
pub read_status-write_status :
    (w : Workspace) (t : String) (s : ThesisStatus)
    → t ≡ status_value s
    → exists w.intent ≡ true
    → (write_status w t).0 ≡ ok tt
    → read_status (write_status w t).1 ≡ ok (some t)
unfolding write_status read_status
read_status-write_status w t s v i h = rw v (
    grind (
      arith,
      first_token-set_field,
      truthy-status_value,
      ap (λ u. (write_status w u).0) (sym v) ∙ h,
    ))

assert_can_mark-ok :
    (w : Workspace) (target : String) (m : Marking)
    → assert_can_mark w target m ≡ ok tt
    → (current : Option String) × (exists w.intent ≡ true)
      × (read_status w ≡ ok current)
      × (validate_transition (request_of w (status_or_draft current) (norm target) m) ≡ ok tt)
unfolding assert_can_mark
assert_can_mark-ok w target m h = ground arith

-- The move from one status to another that the state machine lets through.
pub record IsMove (from to : String) : Type 0 where
  pub source : ThesisStatus
  pub status : ThesisStatus
  pub from_read : parse_status (norm from) ≡ some source
  pub to_value : to ≡ status_value status
  pub not_live : status ≢ live
  pub edge : (status ≡ source) ⊎ (allowed source status ≡ true)

validate_transition-IsMove :
    (r : Request) (t : String)
    → r.target ≡ norm t
    → validate_transition r ≡ ok tt
    → IsMove r.current (norm t)
validate_transition-IsMove r t e h =
    let (c, s, d, reads) = validate_transition-read r h in
    let sound =
      check_transition_sound r c s d (sym (validate_transition-Reads r c s d reads) ∙ h) in
    record {
      source = c;
      status = s;
      from_read = reads.current_read;
      to_value =
          parse_status-eq (norm t) s
            (ap parse_status (sym (ap norm e ∙ norm_idem t)) ∙ reads.target_read);
      not_live = sound.0;
      edge = sound.1;
    }

-- An accepted mark finds an intent and names a status other than live: the current one, or one
-- edge away from it.
pub assert_can_mark-IsMove :
    (w : Workspace) (target : String) (m : Marking)
    → assert_can_mark w target m ≡ ok tt
    → (current : Option String) × (exists w.intent ≡ true)
      × (read_status w ≡ ok current)
      × IsMove (status_or_draft current) (norm target)
assert_can_mark-IsMove w target m h =
    let (current, intent, reads, valid) = assert_can_mark-ok w target m h in
    let r = request_of w (status_or_draft current) (norm target) m in
    (current, intent, reads, validate_transition-IsMove r target refl valid)

write_status-err :
    (w : Workspace) (t : String) (e : GateError)
    → (write_status w t).0 ≡ err e
    → (f : String) × (e ≡ GateError.field_not_found f)
unfolding write_status set_field
write_status-err w t e h = ground arith

-- A status change writes the status labels of three artifacts and nothing else.
write_status-frame :
    (w : Workspace) (t : String)
    → ((write_status w t).1.evidence ≡ w.evidence)
      × ((write_status w t).1.review ≡ w.review)
      × ((write_status w t).1.paper_trade ≡ w.paper_trade)
      × ((write_status w t).1.paper_files ≡ w.paper_files)
unfolding write_status
write_status-frame w t = ground arith

abbrev pub advance_marking : Workspace → String → String → Bool → Marking
advance_marking w actor decision override = record {
  risk_decision = decision;
  principal_override = override;
  actor = some actor;
  author = some (read_author_role w);
}

pub advance_status-ok :
    (w : Workspace) (target actor reason decision : String) (override : Bool)
    (hook : Option TransitionHook) (t : String)
    → (advance_status w target actor reason decision override hook).result ≡ ok t
    → (t ≡ norm target)
      × (assert_can_mark w (norm target) (advance_marking w actor decision override) ≡ ok tt)
      × ((write_status w (norm target)).0 ≡ ok tt)
      × ((advance_status w target actor reason decision override hook).workspace
          ≡ (write_status w (norm target)).1)
unfolding advance_status
advance_status-ok w target actor reason decision override hook t h = ground arith

-- If advance_status raises, then the hook is what it was, and the exception is the missing field
-- of set_field, or it is the one that the hook raises and the status was written, or the workspace
-- is what it was.
pub advance_status-refused :
    (w : Workspace) (target actor reason decision : String) (override : Bool)
    (hook : Option TransitionHook) (e : GateError)
    → let out = advance_status w target actor reason decision override hook in
      out.result ≡ err e
      → (out.hook ≡ hook)
        × (((f : String) × (e ≡ GateError.field_not_found f))
            ⊎ ((((p : String) × (e ≡ GateError.hook_raised p))
                  × ((write_status w (norm target)).0 ≡ ok tt)
                  × (out.workspace ≡ (write_status w (norm target)).1))
                ⊎ (out.workspace ≡ w)))
unfolding advance_status emit_transition
advance_status-refused w target actor reason decision override hook e h =
    ground (arith, write_status-err w (norm target) e)

-- A status change that goes through is a move from the status that was read (draft, if none is) to
-- a status that the text names, that is not live, and that is the same status or one edge of
-- ALLOWED_TRANSITIONS away; afterwards read_status returns it.
pub advance_status-read :
    (w : Workspace) (target actor reason decision : String) (override : Bool)
    (hook : Option TransitionHook) (t : String)
    → (advance_status w target actor reason decision override hook).result ≡ ok t
    → (current : Option String) × (read_status w ≡ ok current)
      × IsMove (status_or_draft current) t
      × (read_status (advance_status w target actor reason decision override hook).workspace
          ≡ ok (some t))
advance_status-read w target actor reason decision override hook t h =
    let (same, marked, written, left) =
      advance_status-ok w target actor reason decision override hook t h in
    let m = advance_marking w actor decision override in
    let (current, intent, reads, move) = assert_can_mark-IsMove w (norm target) m marked in
    let norm_t : norm (norm target) ≡ t = norm_idem target ∙ sym same in
    (
      current,
      reads,
      rw norm_t at move,
      rw (left, ← same)
          (read_status-write_status w t move.status (sym norm_t ∙ move.to_value) intent
            (rw same written)),
    )
