-- ===== src/Desks/Receipts/Attempt/Once.antt =====
-- An anchor is delivered once, and only after a send that went through.
use market_memory.Prelude.{
  ap, eq_iff, ◌≢◌, Bool, true, false, Option, none, some, String, ◌≡◌, refl, arith, inl, inr, ok,
  ◌>>=◌, Result-cases, Bool-cases, Option-cases, is_none, ok_injective, sym, ◌∙◌, not,
  if◌then◌else◌,
}
use market_memory.Prelude.Int.{ℤ}
use market_memory.Prelude.Dict.{lookup-insert, Dict, lookup, insert}
use market_memory.Desks.Receipts.{
  find_receipt, Platform, Json, validate_receipt_payload, Files, decide_at, object,
  already_delivered, proceed, decide_deliver, receipt_filename, anchor_utc, safe_routine,
}
use market_memory.Desks.Receipts.Checks.{decided, bind_ok, validated_same, proceeded}
use market_memory.Desks.Receipts.Attempt.{
  sent_now, Receipt, accept_delivery, receipt_body, open_new, write_deliver_receipt, DeliverAttempt,
  attempt_of, attempt_deliver, delivered_before, not_sent, receipt_payload,
}

-- The content that a receipt has once it is written.
pub record IsReceipt (p : Platform) (files : Files) (name : String) : Type 0 where
  pub raw : Dict Json
  pub found : lookup name files ≡ some (object raw)
  pub valid : validate_receipt_payload p raw ≡ ok raw

pub body-valid :
    (p : Platform) (r : Receipt) {body : Dict Json}
    → receipt_body p r ≡ ok body
    → validate_receipt_payload p body ≡ ok body
unfolding receipt_body
body-valid p r {body} h =
    let (at, _, k) = bind_ok (anchor_utc p r.scheduled_anchor_ts) _ h in
    let (safe, _, v) = bind_ok (safe_routine r.routine_id) _ k in
    let same = validated_same p (receipt_payload p r safe at) v in rw (← same) at v

-- What a write that returns has done: there was a file before, or before the receipt was opened, or
-- there is a valid receipt now.
pub data Wrote (p : Platform) (arrive : Files → Files) (r : Receipt) (files : Files) (name : String)
    : Option String × Bool × Files → Type 0 where
  before : lookup name files ≢ none → Wrote p arrive r files name (some name, false, files)
  raced :
      lookup name (arrive files) ≢ none
      → Wrote p arrive r files name (some name, false, arrive files)
  created :
      (body : Dict Json)
      → lookup name (arrive files) ≡ none
      → receipt_body p r ≡ ok body
      → Wrote p arrive r files name (some name, true, insert name (object body) (arrive files))

pub write-Wrote :
    (p : Platform) (arrive : Files → Files) (r : Receipt) (files : Files) {name : String}
    → receipt_filename p r.routine_id r.scheduled_anchor_ts ≡ ok name
    → (w : Option String × Bool × Files) → write_deliver_receipt p arrive r true files ≡ ok w
    → Wrote p arrive r files name w
unfolding write_deliver_receipt
write-Wrote p arrive r files {name} n w h = elim (Option-cases (lookup name files)) [
  | inr (c, f) ↦ rw (← ok_injective (rw f at h')) (before (λ e. ground arith))
  | inl f ↦
      let (body, b, o) = bind_ok (receipt_body p r) _ (rw f at h') in
      elim (Option-cases (lookup name (arrive files))) [
        | inr (c, g) ↦ rw (← ok_injective (rw g at o)) (raced (λ e. ground arith))
        | inl g ↦ rw (← ok_injective (rw g at o)) (created body g b)
      ]
]
  where
    h' :
        (if not (is_none (lookup name files))
          then ok (some name, false, files)
          else receipt_body p r >>= (λ body. ok (open_new name body (arrive files))))
        ≡ ok w
    h' = rw (n, write_deliver_receipt) at h

-- The ways in which an attempt returns.
pub data Attempted (p : Platform) (during arrive : Files → Files) (answer : ℤ × String)
    (r : Receipt) (files : Files) (name : String) (a : DeliverAttempt) (files' : Files)
    : Type 0 where
  held :
      decide_at p files name ≡ ok already_delivered
      → a.outcome ≡ delivered_before
      → a.telegram ≡ false
      → files' ≡ files
      → Attempted p during arrive answer r files name a files'
  refused :
      lookup name files ≡ none
      → accept_delivery p answer.1 answer.0 ≡ false
      → a.outcome ≡ not_sent
      → files' ≡ during files
      → Attempted p during arrive answer r files name a files'
  wrote :
      lookup name files ≡ none
      → accept_delivery p answer.1 answer.0 ≡ true
      → (w : Option String × Bool × Files) → Wrote p arrive r (during files) name w
      → (a, files') ≡ attempt_of w
      → Attempted p during arrive answer r files name a files'

module _ (p : Platform) (during arrive : Files → Files) (answer : ℤ × String) (r : Receipt)
    (files : Files) (name : String)
    (n : receipt_filename p r.routine_id r.scheduled_anchor_ts ≡ ok name) where
  decide_at-name :
      decide_deliver p files r.routine_id r.scheduled_anchor_ts ≡ decide_at p files name
  unfolding decide_deliver
  decide_at-name = rw (n, decide_deliver) refl

  attempt-Attempted :
      (a : DeliverAttempt) (files' : Files)
      → attempt_deliver p during arrive answer r files ≡ ok (a, files')
      → Attempted p during arrive answer r files name a files'
  unfolding attempt_deliver
  attempt-Attempted a files' h = elim (Result-cases (decide_at p files name)) [
    | inl (e, d) ↦ let k = decide_at-name ∙ d in absurd (ground arith)
    | inr (already_delivered, d) ↦
        let k = decide_at-name ∙ d in held d (ground arith) (ground arith) (ground arith)
    | inr (proceed, d) ↦
        let k = decide_at-name ∙ d in
        elim (Bool-cases (accept_delivery p answer.1 answer.0)) [
          | inr c ↦ refused (proceeded p files name d) c (ground arith) (ground arith)
          | inl c ↦
              let (w, o, e) =
                bind_ok (write_deliver_receipt p arrive r true (during files))
                  (λ w. ok (attempt_of w)) (rw (k, c, attempt_deliver) at h) in
              wrote (proceeded p files name d) c w (write-Wrote p arrive r (during files) n w o)
                (sym (ok_injective e))
        ]
  ]

pub lookup_self :
    {V : Type 0} (name : String) (v : V) (d : Dict V) → lookup name (insert name v d) ≡ some v
lookup_self name v d = ground (arith, lookup-insert name name v d, eq_iff name name)

Wrote-IsReceipt :
    (p : Platform) (arrive : Files → Files) (r : Receipt) (files : Files) {name : String}
    {w : Option String × Bool × Files}
    → Wrote p arrive r files name w
    → (attempt_of w).0.outcome ≡ sent_now
    → IsReceipt p (attempt_of w).1 name
unfolding attempt_of
Wrote-IsReceipt p arrive r files (before f) s = absurd (ground arith)
Wrote-IsReceipt p arrive r files (raced f) s = absurd (ground arith)
Wrote-IsReceipt p arrive r files {name} (created body f b) s = record {
  raw = body;
  found = lookup_self name (object body) (arrive files);
  valid = body-valid p r b;
}

-- What is left where an attempt says that it was sent.
pub record IsSent (p : Platform) (answer : ℤ × String) (files files' : Files) (name : String)
    : Type 0 where
  pub absent : lookup name files ≡ none
  pub accepted : accept_delivery p answer.1 answer.0 ≡ true
  pub receipt : IsReceipt p files' name

module _ (p : Platform) (during arrive : Files → Files) (answer : ℤ × String) (r : Receipt)
    (files : Files) (name : String) (a : DeliverAttempt) (files' : Files) where
  -- If an attempt for a file name of a receipt says that it was sent, then there was no file of
  -- that name when it began, the send ended with the code zero and a payload whose "sent" is true,
  -- and there is a file of that name afterwards whose payload passes the checks of a receipt.
  pub attempt_deliver-IsSent :
      receipt_filename p r.routine_id r.scheduled_anchor_ts ≡ ok name
      → attempt_deliver p during arrive answer r files ≡ ok (a, files')
      → a.outcome ≡ sent_now
      → IsSent p answer files files' name
  attempt_deliver-IsSent n h s =
      elim (attempt-Attempted p during arrive answer r files name n a files' h) [
        | held d o _ _ ↦ absurd (ground arith)
        | refused _ _ o _ ↦ absurd (ground arith)
        | wrote f c w v e ↦ record {
          absent = f;
          accepted = c;
          receipt =
              rw (ap (λ x. x.1) e)
                (Wrote-IsReceipt p arrive r (during files) v (sym (ap (λ x. x.0.outcome) e) ∙ s));
        }
      ]

-- If an attempt says that it was sent, and a later one has the same file name of a receipt and
-- begins with the file of that name that the first one left, then the later one reports that the
-- anchor was delivered before, it does not call send, and it changes no file, whatever send would
-- answer.
pub sent_once :
    (p : Platform) (during arrive during' arrive' : Files → Files) (answer answer' : ℤ × String)
    (r r' : Receipt) (files files' later : Files) (name : String) (a : DeliverAttempt)
    → receipt_filename p r.routine_id r.scheduled_anchor_ts ≡ ok name
    → receipt_filename p r'.routine_id r'.scheduled_anchor_ts ≡ ok name
    → attempt_deliver p during arrive answer r files ≡ ok (a, files')
    → a.outcome ≡ sent_now
    → lookup name later ≡ lookup name files'
    → attempt_deliver p during' arrive' answer' r' later
      ≡ ok (
        record {
          outcome = delivered_before;
          telegram = false;
          receipt_path = some name;
          receipt_created = false;
        },
        later,
      )
unfolding attempt_deliver find_receipt
sent_once p during arrive during' arrive' answer answer' r r' files files' later name a n n' h s l =
    let receipt =
      (attempt_deliver-IsSent p during arrive answer r files name a files' n h s).receipt in
    let found = l ∙ receipt.found in
    let d =
      decide_at-name p during' arrive' answer' r' later name n'
      ∙ decided p later name receipt.raw found receipt.valid in
    rw (d, attempt_deliver, n', find_receipt, found) refl
