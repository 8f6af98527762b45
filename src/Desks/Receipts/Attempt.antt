-- ===== src/Desks/Receipts/Attempt.antt =====
-- packages/desks/src/mm_desks/deliver_receipt.py: the delivery that writes a receipt.
pub mod Once
pub mod Committable
use market_memory.Desks.Receipts.Paths.{relative_receipt_path, last_part}
use market_memory.Prelude.{
  ℕ, Bool, true, false, ◌&&◌, ◌||◌, not, Option, none, some, List, [], ◌∷◌, String, str_eq, text_in,
  if◌then◌else◌, is_none, Result, ok, err, raise_if, ◌>>=◌, ◌>>◌, truthy, strip, ◌==◌,
}
use Prim.Native.Char.{code}
use market_memory.Prelude.Int.{ℤ, pos}
use market_memory.Prelude.Dict.{Dict, lookup, insert}
use market_memory.Desks.Receipts.{
  find_receipt, Platform, Files, Content, object, Json, text, bool, int, null, ReceiptError,
  wrong_name, Decision, proceed, already_delivered, decide_deliver, receipt_filename, safe_routine,
  anchor_utc, validate_receipt_payload, load_receipt, deadman_outcomes, is_true, text_or_empty,
}

-- The keyword arguments of a receipt. The outer none of the rows is `_OMIT`.
pub record Receipt : Type 0 where
  pub routine_id : String
  pub scheduled_anchor_ts : String
  pub run_id : String
  pub source : String
  pub delivered_at : ℕ
  pub deadman_ping : Option String
  pub deadman_ping_at : Option String
  pub capture_rows : Option (Option ℤ)

-- `raw[start:]`, from the first brace that opens.
unfoldable pub from_brace : String → Option String
from_brace String.[] = none
from_brace (String.◌∷◌ c s) =
    let rest = from_brace s in if code c == b'{' then some (String.◌∷◌ c s) else rest

-- The text up to the last brace that closes.
unfoldable pub to_brace : String → Option String
to_brace String.[] = none
to_brace (String.◌∷◌ c s) = elim (to_brace s) [
  | some rest ↦ some (String.◌∷◌ c rest)
  | none ↦ if code c == b'}' then some (String.◌∷◌ c String.[]) else none
]

-- `parse_deliver_stdout`
unfoldable pub parse_deliver_stdout : Platform → String → Option (Dict Json)
parse_deliver_stdout p stdout = elim (from_brace stdout) [
  | none ↦ none
  | some opened ↦ elim (to_brace opened) [ none ↦ none | some raw ↦ p.loads raw ]
]

-- `deliver_sent`
unfoldable pub deliver_sent : Platform → String → Bool
deliver_sent p stdout = elim (parse_deliver_stdout p stdout) [
  | none ↦ false
  | some payload ↦ is_true (lookup "sent" payload)
]

abbrev pub is_zero : ℤ → Bool
is_zero (pos n) = n == 0
is_zero _ = false

-- `accept_delivery`
unfoldable pub accept_delivery : Platform → String → ℤ → Bool
accept_delivery p stdout returncode = is_zero returncode && deliver_sent p stdout

-- `stored_deadman`, as an update of the payload.
unfoldable pub stored_deadman : Platform → Option String → Option String → Dict Json → Dict Json
stored_deadman p (some ping) (some at) d =
    if not (text_in ping deadman_outcomes) || not (truthy (some (strip at)))
    then d
    else elim (p.parse_utc at) [
      | none ↦ d
      | some t ↦
          insert "deadman_ping_at" (text (p.isoformat t)) (insert "deadman_ping" (text ping) d)
    ]
stored_deadman p _ _ d = d

abbrev rows_json : Option ℤ → Json
rows_json none = null
rows_json (some n) = int n

abbrev pub with_rows : Option (Option ℤ) → Dict Json → Dict Json
with_rows none d = d
with_rows (some rows) d = insert "capture_rows" (rows_json rows) d

-- The payload of `_receipt_body`.
unfoldable pub receipt_payload : Platform → Receipt → String → ℕ → Dict Json
receipt_payload p r safe at = with_rows r.capture_rows (
    stored_deadman p r.deadman_ping r.deadman_ping_at (
      ("kind", text "deliver_receipt")
      ∷ ("routine_id", text safe)
      ∷ ("scheduled_anchor_ts", text (p.isoformat at))
      ∷ ("run_id", text r.run_id)
      ∷ ("sent", bool true)
      ∷ ("delivered_at_ts", text (p.isoformat r.delivered_at))
      ∷ ("source", text (if truthy (some r.source) then r.source else "github.actions"))
      ∷ []))

-- `_receipt_body`
unfoldable pub receipt_body : Platform → Receipt → Result ReceiptError (Dict Json)
receipt_body p r = anchor_utc p r.scheduled_anchor_ts >>= (λ at.
    safe_routine r.routine_id
    >>= (λ safe. validate_receipt_payload p (receipt_payload p r safe at)))

-- The path and whether it was created, and the files.
abbrev pub Written : Type 0
Written = Option String × Bool × Files

-- `os.open` with O_EXCL, after what other processes wrote.
abbrev pub open_new : String → Dict Json → Files → Written
open_new name body files =
    if is_none (lookup name files)
    then (some name, true, insert name (object body) files)
    else (some name, false, files)

-- `write_deliver_receipt`
unfoldable pub write_deliver_receipt :
    Platform → (Files → Files) → Receipt → Bool → Files → Result ReceiptError Written
write_deliver_receipt p arrive r sent files =
    if not sent
    then ok (none, false, files)
    else receipt_filename p r.routine_id r.scheduled_anchor_ts >>= (λ name.
      if not (is_none (lookup name files))
      then ok (some name, false, files)
      else receipt_body p r >>= (λ body. ok (open_new name body (arrive files))))

pub data Outcome : Type 0 where
  sent_now delivered_before not_sent : Outcome

-- `DeliverAttempt`
pub record DeliverAttempt : Type 0 where
  pub outcome : Outcome
  pub telegram : Bool
  pub receipt_path : Option String
  pub receipt_created : Bool

-- The result of an attempt that wrote.
unfoldable pub attempt_of : Written → DeliverAttempt × Files
attempt_of (path, created, files) = (
  record {
    outcome = if not (is_none path) && not created then delivered_before else sent_now;
    telegram = true;
    receipt_path = path;
    receipt_created = created;
  },
  files,
)

-- `attempt_deliver`: the files that other processes leave while `send` runs, what it answers, and
-- what they write before the receipt is opened.
unfoldable pub attempt_deliver :
    Platform
    → (Files → Files)
    → (Files → Files)
    → ℤ × String
    → Receipt
    → Files
    → Result ReceiptError (DeliverAttempt × Files)
attempt_deliver p during arrive (returncode, stdout) r files =
    elim (decide_deliver p files r.routine_id r.scheduled_anchor_ts) [
      | err e ↦ err e
      | ok already_delivered ↦ ok (
        record {
          outcome = delivered_before;
          telegram = false;
          receipt_path = find_receipt p files r.routine_id r.scheduled_anchor_ts;
          receipt_created = false;
        },
        files,
      )
      | ok proceed ↦
          if not (accept_delivery p stdout returncode)
          then ok (
            record {
              outcome = not_sent;
              telegram = true;
              receipt_path = none;
              receipt_created = false;
            },
            during files,
          )
          else write_deliver_receipt p arrive r true (during files) >>= (λ w. ok (attempt_of w))
    ]

-- `assert_receipt_committable`, of a path with its relative one.
unfoldable pub assert_receipt_committable :
    Platform → Option (List String) → Content → Result ReceiptError (List String)
assert_receipt_committable p path content = relative_receipt_path path >>= (λ rel.
    load_receipt p content >>= (λ raw.
      receipt_filename p (text_or_empty p (lookup "routine_id" raw))
        (text_or_empty p (lookup "scheduled_anchor_ts" raw))
      >>= (λ expected. raise_if (not (str_eq (last_part rel) expected)) wrong_name >> ok rel)))
