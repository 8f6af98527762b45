-- ===== src/Desks/Receipts/Examples.antt =====
-- packages/desks/src/mm_desks/deliver_receipt.py: one anchor that is delivered, and tried again.
use market_memory.Prelude.{
  is_space, spaceless, strip_of_spaceless, zero, suc, ap, Option, Bool, true, false, none, some, [],
  ◌∷◌, String, ◌≡◌, refl, Result, ok, err, strip, lower, contains,
}
use market_memory.Prelude.Int.{ℤ, pos}
use market_memory.Prelude.Dict.{lookup, insert}
use market_memory.Desks.Receipts.{
  Content, ℕ, bool, Platform, Files, ReceiptError, validate_receipt_payload, validate_deadman,
  all_known, any_secretish, any_in, anchor_utc, receipt_filename, safe_routine, decide_deliver,
  decide_at,
}
use market_memory.Desks.Receipts.Names.{
  safe_id, sub_from, is_safe, lstrip_marks, rstrip_marks, is_mark,
}
use market_memory.Desks.Receipts.Attempt.{
  assert_receipt_committable, Receipt, DeliverAttempt, attempt_deliver, sent_now, delivered_before,
  write_deliver_receipt, receipt_body, receipt_payload, stored_deadman, with_rows, accept_delivery,
  deliver_sent, parse_deliver_stdout, from_brace, to_brace, attempt_of,
}
use market_memory.Desks.Receipts.Attempt.Committable.{path_of, receipt_at, written_committable}
use market_memory.Desks.Receipts.Attempt.Once.{sent_once, attempt_deliver-IsSent, IsSent}

-- Every text that is not blank is the one instant, and every payload says that it was sent.
abbrev platform : Platform
platform = record {
  parse_utc = λ s. some 1000;
  show = λ v. "value";
  isoformat = λ t. "1970-01-01T00:16:40Z";
  compact = λ t. "19700101T001640Z";
  dumped = λ d. "{}";
  loads = λ s. some (("sent", bool true) ∷ []);
}

abbrev receipt : Receipt
receipt = record {
  routine_id = "lab.delivery.watchlist";
  scheduled_anchor_ts = "1970-01-01T00:16:40Z";
  run_id = "run-1";
  source = "";
  delivered_at = 1000;
  deadman_ping = some "OK";
  deadman_ping_at = some "1970-01-01T00:16:40Z";
  capture_rows = some (some (pos 3));
}

abbrev file_name : String
file_name = "lab.delivery.watchlist__19700101T001640Z.deliver.json"

named : receipt_filename platform receipt.routine_id receipt.scheduled_anchor_ts ≡ ok file_name
unfolding receipt_filename safe_routine safe_id sub_from is_safe lstrip_marks rstrip_marks is_mark
    anchor_utc strip
named = refl

abbrev answer : ℤ × String
answer = (pos 0, "log {sent}")

abbrev Attempted : Type 0
Attempted = Result ReceiptError (DeliverAttempt × Files)

abbrev attempt : Attempted
attempt = attempt_deliver platform (λ files. files) (λ files. files) answer receipt []

abbrev left : Attempted → DeliverAttempt × Files
left (ok w) = w
left (err _) = (
  record {
    outcome = delivered_before;
    telegram = false;
    receipt_path = none;
    receipt_created = false;
  },
  [],
)

attempted : attempt ≡ ok (left attempt)
unfolding attempt_deliver decide_deliver decide_at accept_delivery deliver_sent parse_deliver_stdout
    from_brace to_brace write_deliver_receipt receipt_body receipt_payload stored_deadman with_rows
    attempt_of receipt_filename safe_routine safe_id sub_from is_safe lstrip_marks rstrip_marks
    is_mark anchor_utc strip validate_receipt_payload validate_deadman all_known any_secretish
    any_in contains lower lookup insert
attempted = refl

was_sent : (left attempt).0.outcome ≡ sent_now
unfolding attempt_deliver decide_deliver decide_at accept_delivery deliver_sent parse_deliver_stdout
    from_brace to_brace write_deliver_receipt receipt_body receipt_payload stored_deadman with_rows
    attempt_of receipt_filename safe_routine safe_id sub_from is_safe lstrip_marks rstrip_marks
    is_mark anchor_utc strip validate_receipt_payload validate_deadman all_known any_secretish
    any_in contains lower lookup insert
was_sent = refl

attempt_deliver-IsSent_example : IsSent platform answer [] (left attempt).1 file_name
attempt_deliver-IsSent_example =
    attempt_deliver-IsSent platform (λ files. files) (λ files. files) answer receipt [] file_name
      (left attempt).0 (left attempt).1 named attempted was_sent

sent_once_example :
    attempt_deliver platform (λ files. []) (λ files. []) (pos 1, "") receipt (left attempt).1
    ≡ ok (
      record {
        outcome = delivered_before;
        telegram = false;
        receipt_path = some file_name;
        receipt_created = false;
      },
      (left attempt).1,
    )
sent_once_example =
    sent_once platform (λ files. files) (λ files. files) (λ files. []) (λ files. []) answer
      (pos 1, "") receipt receipt [] (left attempt).1 (left attempt).1 file_name (left attempt).0
      named named attempted was_sent refl

abbrev Written : Type 0
Written = Result ReceiptError (Option String × Bool × Files)

abbrev files_of : Written → Files
files_of (ok (path, created, files)) = files
files_of (err _) = []

-- An instant in unary.
tally : ℕ → String
tally zero = String.[]
tally (suc n) = String.◌∷◌ "I" (tally n)

count : String → ℕ
count String.[] = 0
count (String.◌∷◌ c s) = suc (count s)

count-tally : (n : ℕ) → count (tally n) ≡ n
unfolding count tally
count-tally zero = refl
count-tally (suc n) = ap suc (count-tally n)

spaceless-tally : (n : ℕ) → spaceless (tally n) ≡ true
unfolding tally spaceless is_space
spaceless-tally zero = refl
spaceless-tally (suc n) = spaceless-tally n

abbrev unary : Platform
unary = record platform {
  parse_utc = λ s. elim s [ String.[] ↦ none | String.◌∷◌ c rest ↦ some (count rest) ];
  isoformat = λ t. String.◌∷◌ "T" (tally t);
}

unary_exact : (t : ℕ) → anchor_utc unary (unary.isoformat t) ≡ ok t
unfolding anchor_utc spaceless is_space
unary_exact t =
    rw (strip_of_spaceless (String.◌∷◌ "T" (tally t)) (spaceless-tally t), anchor_utc)
      (ap ok (count-tally t))

abbrev unary_receipt : Receipt
unary_receipt = record receipt { scheduled_anchor_ts = "TIII"; deadman_ping = none }

abbrev own_write : Written
own_write = write_deliver_receipt unary (λ files. files) unary_receipt true []

written : own_write ≡ ok (some file_name, true, files_of own_write)
unfolding write_deliver_receipt receipt_body receipt_payload stored_deadman with_rows
    receipt_filename safe_routine safe_id sub_from is_safe lstrip_marks rstrip_marks is_mark
    anchor_utc strip validate_receipt_payload validate_deadman all_known any_secretish any_in
    contains lower lookup insert tally count
written = refl

written_committable_example :
    (content : Content) × (lookup file_name (files_of own_write) ≡ some content)
    × (assert_receipt_committable unary (receipt_at file_name) content ≡ ok (path_of file_name))
written_committable_example =
    written_committable unary (λ files. files) unary_receipt [] (files_of own_write) file_name
      unary_exact written
