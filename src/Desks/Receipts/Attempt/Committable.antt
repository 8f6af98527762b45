-- ===== src/Desks/Receipts/Attempt/Committable.antt =====
-- A receipt that was written can be committed under its name.
use market_memory.Desks.Receipts.Paths.{
  receipts_rel, is_deliver, deliver_suffix, in_receipts, last_of_receipts,
}
use market_memory.Prelude.Int.{ℤ}
use market_memory.Prelude.{
  [], ◌∷◌, ◌++◌, List, strip, ◌||◌, text_in, ℕ, Bool, true, false, not, Option, none, some, String,
  str_eq, ◌≡◌, refl, arith, inl, inr, ok, Bool-cases, Option-cases, ok_injective, sym, ◌∙◌, ap,
  eq_iff, truthy,
}
use Prim.Native.String.{◌++◌ as append}
use market_memory.Prelude.Dict.{Dict, lookup, insert, lookup-insert}
use market_memory.Desks.Receipts.{
  deadman_outcomes, Platform, Json, text, validate_receipt_payload, Files, Content, object,
  receipt_filename, anchor_utc, safe_routine, text_or_empty, load_receipt,
}
use market_memory.Desks.Receipts.Names.{safe_id}
use market_memory.Desks.Receipts.Names.Laws.{safe_id_idem}
use market_memory.Desks.Receipts.Checks.{bind_ok, validated_same}
use market_memory.Desks.Receipts.Attempt.{
  Receipt, receipt_body, write_deliver_receipt, receipt_payload, stored_deadman, with_rows,
  assert_receipt_committable,
}
use market_memory.Desks.Receipts.Attempt.Once.{
  body-valid, lookup_self, Wrote, before, raced, created, write-Wrote,
}

abbrev name_of : Platform → String → ℕ → String
name_of p safe at = append safe (append "__" (append (p.compact at) ".deliver.json"))

filename-parts :
    (p : Platform) (routine_id anchor : String) {name : String}
    → receipt_filename p routine_id anchor ≡ ok name
    → (safe : String) × (at : ℕ) × (safe_routine routine_id ≡ ok safe)
      × (anchor_utc p anchor ≡ ok at)
      × (name ≡ name_of p safe at)
unfolding receipt_filename
filename-parts p routine_id anchor h =
    let (safe, s, k) = bind_ok (safe_routine routine_id) _ h in
    let (at, a, e) = bind_ok (anchor_utc p anchor) _ k in (safe, at, s, a, sym (ok_injective e))

safe_again :
    (routine_id : String) {safe : String}
    → safe_routine routine_id ≡ ok safe
    → (safe_routine safe ≡ ok safe) × (truthy (some safe) ≡ true)
unfolding safe_routine
safe_again routine_id {safe} h = elim (Bool-cases (truthy (some (safe_id routine_id)))) [
  | inr t ↦ absurd (ground arith)
  | inl t ↦
      let e : safe_id routine_id ≡ safe = ground arith in
      rw (← e) (rw (safe_id_idem routine_id, t) refl, t)
]

read_text : (p : Platform) (s : String) → text_or_empty p (some (text s)) ≡ s
read_text p String.[] = refl
read_text p (String.◌∷◌ c s) = refl

-- The fields that the payload keeps, whatever the ping and the rows.
deadman-kept :
    (p : Platform) (key : String) (ping ping_at : Option String) (d : Dict Json)
    → str_eq "deadman_ping" key ≡ false
    → str_eq "deadman_ping_at" key ≡ false
    → lookup key (stored_deadman p ping ping_at d) ≡ lookup key d
unfolding stored_deadman
deadman-kept p key (some ping) (some ping_at) d a b =
    elim (Bool-cases (not (text_in ping deadman_outcomes) || not (truthy (some (strip ping_at))))) [
      | inl h ↦ rw h refl
      | inr h ↦ elim (Option-cases (p.parse_utc ping_at)) [
        | inl q ↦ rw (h, q, stored_deadman) refl
        | inr (t, q) ↦
            rw (h, q, stored_deadman)
              (lookup-insert "deadman_ping_at" key (text (p.isoformat t))
                  (insert "deadman_ping" (text ping) d)
                ∙ rw b (lookup-insert "deadman_ping" key (text ping) d ∙ rw a refl))
      ]
    ]
deadman-kept p key none ping_at d a b = refl
deadman-kept p key (some ping) none d a b = refl

rows-kept :
    (key : String) (rows : Option (Option ℤ)) (d : Dict Json)
    → str_eq "capture_rows" key ≡ false
    → lookup key (with_rows rows d) ≡ lookup key d
rows-kept key none d a = refl
rows-kept key (some rows) d a = lookup-insert "capture_rows" key _ d ∙ rw a refl

payload-routine :
    (p : Platform) (r : Receipt) (safe : String) (at : ℕ)
    → lookup "routine_id" (receipt_payload p r safe at) ≡ some (text safe)
unfolding receipt_payload lookup
payload-routine p r safe at =
    rows-kept "routine_id" r.capture_rows _ refl
    ∙ deadman-kept p "routine_id" r.deadman_ping r.deadman_ping_at _ refl refl

payload-anchor :
    (p : Platform) (r : Receipt) (safe : String) (at : ℕ)
    → lookup "scheduled_anchor_ts" (receipt_payload p r safe at) ≡ some (text (p.isoformat at))
unfolding receipt_payload lookup
payload-anchor p r safe at =
    rows-kept "scheduled_anchor_ts" r.capture_rows _ refl
    ∙ deadman-kept p "scheduled_anchor_ts" r.deadman_ping r.deadman_ping_at _ refl refl

created-body :
    (p : Platform) (arrive : Files → Files) (r : Receipt) (files : Files) {name : String}
    {w : Option String × Bool × Files}
    → Wrote p arrive r files name w
    → w.1 ≡ true
    → (body : Dict Json) × (receipt_body p r ≡ ok body)
      × (w ≡ (some name, true, insert name (object body) (arrive files)))
created-body p arrive r files (before f) t = absurd (ground arith)
created-body p arrive r files (raced f) t = absurd (ground arith)
created-body p arrive r files (created body f b) t = (body, b, refl)

-- The path of a receipt under the repository's own directory of completions.
abbrev pub path_of : String → List String
path_of name = receipts_rel ++ name ∷ []

abbrev pub receipt_at : String → Option (List String)
receipt_at name = some (path_of name)

committable :
    (p : Platform) (name safe : String) (at : ℕ) (body : Dict Json)
    → validate_receipt_payload p body ≡ ok body
    → lookup "routine_id" body ≡ some (text safe)
    → lookup "scheduled_anchor_ts" body ≡ some (text (p.isoformat at))
    → safe_routine safe ≡ ok safe
    → anchor_utc p (p.isoformat at) ≡ ok at
    → name ≡ name_of p safe at
    → assert_receipt_committable p (receipt_at name) (object body) ≡ ok (path_of name)
unfolding assert_receipt_committable load_receipt receipt_filename
committable p name safe at body v routine anchor s iso n =
    let deliver : is_deliver name ≡ true = rw n (deliver_suffix safe (p.compact at)) in
    rw
      (
        in_receipts name deliver,
        last_of_receipts name,
        v,
        routine,
        anchor,
        read_text p safe,
        read_text p (p.isoformat at),
        s,
        iso,
        n,
        (eq_iff (name_of p safe at) (name_of p safe at)).1 refl,
      )
      refl

body-committable :
    (p : Platform) (r : Receipt) {name : String} {body : Dict Json}
    → ((t : ℕ) → anchor_utc p (p.isoformat t) ≡ ok t)
    → receipt_filename p r.routine_id r.scheduled_anchor_ts ≡ ok name
    → receipt_body p r ≡ ok body
    → assert_receipt_committable p (receipt_at name) (object body) ≡ ok (path_of name)
unfolding receipt_body
body-committable p r {name} {body} iso n b =
    let (at, a, k) = bind_ok (anchor_utc p r.scheduled_anchor_ts) _ b in
    let (safe, s, v) = bind_ok (safe_routine r.routine_id) _ k in
    let same = validated_same p (receipt_payload p r safe at) v in
    let (safe', at', s', a', e) = filename-parts p r.routine_id r.scheduled_anchor_ts n in
    committable p name safe at body (body-valid p r b)
      (ap (λ d. lookup "routine_id" d) same ∙ payload-routine p r safe at)
      (ap (λ d. lookup "scheduled_anchor_ts" d) same ∙ payload-anchor p r safe at)
      (safe_again r.routine_id s).0 (iso at)
      (e
        ∙ ap (λ x. name_of p x at') (ok_injective (sym s' ∙ s))
        ∙ ap (λ x. name_of p safe x) (ok_injective (sym a' ∙ a)))

-- If the text that isoformat makes of an instant reads as that instant, and write_deliver_receipt
-- creates a receipt in ops/reports/scheduler/completions/receipts of the repository, then the file
-- that it leaves under the name passes assert_receipt_committable, which returns the relative path
-- of that file: the path is in scope, the file is a valid receipt, and its name is the one of its
-- routine and anchor.
pub written_committable :
    (p : Platform) (arrive : Files → Files) (r : Receipt) (files files' : Files) (name : String)
    → ((t : ℕ) → anchor_utc p (p.isoformat t) ≡ ok t)
    → write_deliver_receipt p arrive r true files ≡ ok (some name, true, files')
    → (content : Content) × (lookup name files' ≡ some content)
      × (assert_receipt_committable p (receipt_at name) content ≡ ok (path_of name))
unfolding write_deliver_receipt
written_committable p arrive r files files' name iso h =
    let (found_name, n, _) = bind_ok (receipt_filename p r.routine_id r.scheduled_anchor_ts) _ h in
    let (body, b, e) = created-body p arrive r files (write-Wrote p arrive r files n _ h) refl in
    let own : name ≡ found_name = ground arith in
    (
      object body,
      ap (λ w. lookup name w.2) e ∙ rw (← own) (lookup_self name (object body) (arrive files)),
      rw own (body-committable p r iso n b),
    )
