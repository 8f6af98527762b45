-- ===== src/Research/Skeptic/Laws.antt =====
-- A recorded verdict is read back, with the status that it brings; nobody records a verdict on
-- their own thesis.
use market_memory.Prelude.{
  Result-cases, inr, inl, Option-cases, norm-strip, ◌≡◌, refl, ◌≢◌, ◌∙◌, sym, ap, true, false, none,
  some, Option, String, norm, strip, eq_iff, arith, Result, ok, err,
}
use market_memory.Research.Enums.{
  SkepticVerdict, pass, revise, reject, parse_verdict, verdict_value,
}
use market_memory.Research.Errors.{GateError}
use market_memory.Research.Markdown.{Document, get_field, first_token}
use market_memory.Research.Markdown.Laws.{get_field-set_field}
use market_memory.Research.Workspace.{
  Workspace, read_status, read_author_role, recorded_skeptic_verdict,
}
use market_memory.Research.Lifecycle.{assert_independent_skeptic}
use market_memory.Research.Lifecycle.Writes.{advance_status-ok, advance_status-read}
use market_memory.Research.Skeptic.{
  pass_gates, check_verdict, checked, ◌andthen◌, slug_of, stamp_of, final_status,
  has_evidence_links, Call, write_review, fill_skeptic_review, apply_verdict, advance,
  record_skeptic_verdict, open_skeptic_review,
}

-- If the reviewer is the author, up to case and surrounding space, then neither
-- record_skeptic_verdict nor open_skeptic_review returns, and both leave the workspace as it was.
pub author_refused :
    (now verdict reviewer : String) (w : Workspace)
    → norm reviewer ≡ norm (read_author_role w)
    → ((record_skeptic_verdict now verdict reviewer w).1 ≡ w)
      × ((s : String) → (record_skeptic_verdict now verdict reviewer w).0 ≢ ok s)
      × ((open_skeptic_review now reviewer w).1 ≡ w)
      × ((s : String) → (open_skeptic_review now reviewer w).0 ≢ ok s)
unfolding record_skeptic_verdict check_verdict open_skeptic_review assert_independent_skeptic
author_refused now verdict reviewer w h =
    let same =
      (eq_iff (norm (strip reviewer)) (norm (read_author_role w))).1 (norm-strip reviewer ∙ h) in
    (
      ground (arith, same),
      λ s. ground (arith, same),
      ground (arith, same),
      λ s. ground (arith, same),
    )

recorded_of_field :
    (w : Workspace) (d : Document) (v : SkepticVerdict)
    → w.review ≡ some d
    → get_field d "Verdict" ≡ some (strip (verdict_value v))
    → recorded_skeptic_verdict w ≡ ok (some v)
unfolding recorded_skeptic_verdict strip norm first_token parse_verdict
recorded_of_field w d pass r f = rw (r, f)
recorded_of_field w d revise r f = rw (r, f)
recorded_of_field w d reject r f = rw (r, f)

fill-Verdict :
    (d e : Document) (slug reviewer created v : String)
    → fill_skeptic_review d slug reviewer created (some v) ≡ ok e
    → get_field e "Verdict" ≡ some (strip v)
unfolding fill_skeptic_review
fill-Verdict d e slug reviewer created v h = grind (arith, get_field-set_field)

write_review-ok :
    (now reviewer v : String) (created : Option String) (w : Workspace) (s : String)
    → (write_review now reviewer (some v) created w).0 ≡ ok s
    → (e : Document) × ((write_review now reviewer (some v) created w).1.review ≡ some e)
      × (get_field e "Verdict" ≡ some (strip v))
unfolding write_review
write_review-ok now reviewer v created w s h = elim (Option-cases w.review) [
  | inl missing ↦ absurd (ground arith)
  | inr (d, there) ↦
      let stamp = stamp_of now created d in
      elim (Result-cases (fill_skeptic_review d (slug_of w) reviewer stamp (some v))) [
        | inl (x, failed) ↦ absurd (ground arith)
        | inr (e, filled) ↦ (e, ground arith, fill-Verdict d e (slug_of w) reviewer stamp v filled)
      ]
]

-- A written verdict is the one that is read.
pub recorded-write_review :
    (now reviewer : String) (v : SkepticVerdict) (created : Option String) (w : Workspace)
    (s : String)
    → (write_review now reviewer (some (verdict_value v)) created w).0 ≡ ok s
    → recorded_skeptic_verdict (write_review now reviewer (some (verdict_value v)) created w).1
      ≡ ok (some v)
recorded-write_review now reviewer v created w s h =
    let (e, left, field) = write_review-ok now reviewer (verdict_value v) created w s h in
    recorded_of_field (write_review now reviewer (some (verdict_value v)) created w).1 e v left
      field

andthen-ok :
    (c : Call) (f : Workspace → Call) (s : String)
    → (c andthen f).0 ≡ ok s
    → (a : String) × (c.0 ≡ ok a) × ((c andthen f) ≡ f c.1)
andthen-ok (ok a, w) f s h = (a, refl, refl)
andthen-ok (err e, w) f s h = absurd (ground arith)

checked-ok :
    {A : Type 0} (m : Result GateError A) (w : Workspace) (f : A → Call) (s : String)
    → (checked m w f).0 ≡ ok s
    → (a : A) × (m ≡ ok a) × (checked m w f ≡ f a)
checked-ok (ok a) w f s h = (a, refl, refl)
checked-ok (err e) w f s h = absurd (ground arith)

check_verdict-ok :
    (verdict reviewer : String) (w : Workspace) (v : SkepticVerdict) (current : String)
    → check_verdict verdict reviewer w ≡ ok (v, current)
    → (parse_verdict (norm verdict) ≡ some v) × (norm reviewer ≢ norm (read_author_role w))
unfolding check_verdict assert_independent_skeptic
check_verdict-ok verdict reviewer w v current h =
    ground (arith, eq_iff (norm reviewer) (norm (read_author_role w)))

-- The three steps of an accepted record: the status change, the review, the status read back.
record Recorded (now verdict reviewer : String) (w : Workspace) (s : String) : Type 0 where
  given : SkepticVerdict
  current : String
  changed : String
  stamped : String
  check : check_verdict verdict (strip reviewer) w ≡ ok (given, current)
  change : (apply_verdict given current w).0 ≡ ok changed
  stamp :
      (write_review now
        (strip reviewer)
        (some (verdict_value given))
        none
        (apply_verdict given current w).1).0
      ≡ ok stamped
  final :
      record_skeptic_verdict now verdict reviewer w
      ≡ final_status current
          (write_review now
            (strip reviewer)
            (some (verdict_value given))
            none
            (apply_verdict given current w).1).1

record_skeptic_verdict-Recorded :
    (now verdict reviewer : String) (w : Workspace) (s : String)
    → (record_skeptic_verdict now verdict reviewer w).0 ≡ ok s
    → Recorded now verdict reviewer w s
unfolding record_skeptic_verdict
record_skeptic_verdict-Recorded now verdict reviewer w s h =
    let ((v, current), check, e₁) =
      checked-ok (check_verdict verdict (strip reviewer) w) w
        (λ v.
          apply_verdict v.0 v.1 w
          andthen write_review now (strip reviewer) (some (verdict_value v.0)) none
          andthen final_status v.1)
        s h in
    let (b, stamp, e₂) =
      andthen-ok
        (apply_verdict v current w
          andthen write_review now (strip reviewer) (some (verdict_value v)) none)
        (final_status current) s (ap (λ c. c.0) (sym e₁) ∙ h) in
    let (a, change, e₃) =
      andthen-ok (apply_verdict v current w)
        (write_review now (strip reviewer) (some (verdict_value v)) none) b stamp in
    record {
      given = v;
      current = current;
      changed = a;
      stamped = b;
      check = check;
      change = change;
      stamp = ap (λ c. c.0) (sym e₃) ∙ stamp;
      final = e₁ ∙ e₂ ∙ ap (λ c. final_status current c.1) e₃;
    }

final_status-keeps : (current : String) (w : Workspace) → (final_status current w).1 ≡ w
final_status-keeps current w = elim (Result-cases (read_status w)) [
  | inl (e, p) ↦ rw (p, final_status)
  | inr (a, p) ↦ rw (p, final_status)
]

-- If record_skeptic_verdict returns, then the verdict names pass, revise or reject, the reviewer
-- is not the author (up to case and surrounding space), and recorded_skeptic_verdict reads that
-- verdict in the workspace that is left.
pub record_skeptic_verdict-recorded :
    (now verdict reviewer : String) (w : Workspace) (s : String)
    → (record_skeptic_verdict now verdict reviewer w).0 ≡ ok s
    → (v : SkepticVerdict) × (parse_verdict (norm verdict) ≡ some v)
      × (norm reviewer ≢ norm (read_author_role w))
      × (recorded_skeptic_verdict (record_skeptic_verdict now verdict reviewer w).1 ≡ ok (some v))
record_skeptic_verdict-recorded now verdict reviewer w s h =
    let r = record_skeptic_verdict-Recorded now verdict reviewer w s h in
    let checks = check_verdict-ok verdict (strip reviewer) w r.given r.current r.check in
    (
      r.given,
      checks.0,
      λ same. checks.1 (norm-strip reviewer ∙ same),
      rw (r.final, final_status-keeps)
          (recorded-write_review now (strip reviewer) r.given none
            (apply_verdict r.given r.current w).1 r.stamped r.stamp),
    )

read_status-of_parts :
    (w w' : Workspace)
    → w.thesis ≡ w'.thesis
    → w.intent ≡ w'.intent
    → read_status w ≡ read_status w'
unfolding read_status
read_status-of_parts w w' t i = rw (t, i)

write_review-frame :
    (now reviewer : String) (v created : Option String) (w : Workspace)
    → read_status (write_review now reviewer v created w).1 ≡ read_status w
write_review-frame now reviewer v created w =
    read_status-of_parts (write_review now reviewer v created w).1 w
      (unfold write_review in ground arith) (unfold write_review in ground arith)

advance-read :
    (t s : String) (w : Workspace)
    → (advance t w).0 ≡ ok s
    → read_status (advance t w).1 ≡ ok (some s)
unfolding advance
advance-read t s w h =
    (advance_status-read w t "Coordinator" "status advance" "pending" false none s h).3

advance_in_skeptic :
    (s : String) (w : Workspace) → (advance "in_skeptic" w).0 ≡ ok s → s ≡ "in_skeptic"
unfolding advance norm strip
advance_in_skeptic s w h =
    (advance_status-ok w "in_skeptic" "Coordinator" "status advance" "pending" false none s h).0

apply_verdict-pass :
    (current s : String) (w : Workspace)
    → (apply_verdict pass current w).0 ≡ ok s
    → (has_evidence_links w ≡ true)
      × (read_status (apply_verdict pass current w).1 ≡ ok (some "in_skeptic"))
unfolding apply_verdict
apply_verdict-pass current s w h =
    let (_, gates, moved) = checked-ok (pass_gates w) w (λ _. advance "in_skeptic" w) s h in
    let advanced : (advance "in_skeptic" w).0 ≡ ok s = ap (λ c. c.0) (sym moved) ∙ h in
    (
      ground arith,
      ap (λ c. read_status c.1) moved
          ∙ advance-read "in_skeptic" s w advanced
          ∙ ap (λ t. ok (some t)) (advance_in_skeptic s w advanced),
    )

-- If record_skeptic_verdict returns for the verdict pass, then there are evidence links and
-- read_status of the workspace that is left is in_skeptic.
pub record_pass :
    (now verdict reviewer : String) (w : Workspace) (s : String)
    → parse_verdict (norm verdict) ≡ some pass
    → (record_skeptic_verdict now verdict reviewer w).0 ≡ ok s
    → (has_evidence_links w ≡ true)
      × (read_status (record_skeptic_verdict now verdict reviewer w).1 ≡ ok (some "in_skeptic"))
record_pass now verdict reviewer w s p h =
    let r = record_skeptic_verdict-Recorded now verdict reviewer w s h in
    let checks = check_verdict-ok verdict (strip reviewer) w r.given r.current r.check in
    let given : r.given ≡ pass = cc (checks.0, p) in
    let applied = apply_verdict-pass r.current r.changed w (rw given at r.change) in
    (applied.0, rw (r.final, final_status-keeps, write_review-frame, given) applied.1)
