-- ===== src/Desks/Receipts.antt =====
-- packages/desks/src/mm_desks/deliver_receipt.py: the receipts of delivered anchors. A file of the
-- receipts' directory is what json.loads makes of its text; a value that is no text, integer,
-- boolean or null is its truth and its dump. An instant is a whole number of microseconds in UTC. What datetime and
-- json do is a parameter; what other processes write is an argument.
pub mod Names
pub mod Paths
pub mod Attempt
pub mod Checks
mod Examples
use market_memory.Prelude.{
  ℕ, Bool, true, false, ◌&&◌, ◌||◌, not, Option, none, some, List, [], ◌∷◌, map, String, str_eq,
  text_in, if◌then◌else◌, is_none, Result, ok, err, or_raise, raise_if, ◌>>=◌, ◌>>◌, truthy,
  or_default, contains, lower, strip, ◌==◌,
}
use Prim.Native.String.{◌++◌ as append}
use market_memory.Prelude.Int.{ℤ, pos, negsuc}
use market_memory.Prelude.Dict.{Dict, lookup, insert}
use market_memory.Desks.Receipts.Names.{safe_id}

pub data Json : Type 0 where
  null : Json
  bool : Bool → Json
  int : ℤ → Json
  text : String → Json
  other : Bool → String → Json

-- What is under a path: a file that cannot be read or parsed, JSON that is no object, or an object.
pub data Content : Type 0 where
  not_json not_object : Content
  object : Dict Json → Content

-- The receipts' directory, by file names.
abbrev pub Files : Type 0
Files = Dict Content

pub data ReceiptError : Type 0 where
  no_anchor bad_anchor no_routine unreadable no_object extra_keys secret_key secret_material
        wrong_kind not_sent_true bad_rows half_deadman bad_outcome bad_ping_time not_usable
        wrong_name outside :
      ReceiptError

-- `parse_utc`, `str` of a value that is no text, `datetime.isoformat`, `strftime("%Y%m%dT%H%M%SZ")` and `json.dumps(raw).lower()`,
-- and `json.loads` of a text that is to be an object.
pub record Platform : Type 0 where
  pub parse_utc : String → Option ℕ
  pub show : Json → String
  pub isoformat : ℕ → String
  pub compact : ℕ → String
  pub dumped : Dict Json → String
  pub loads : String → Option (Dict Json)

abbrev pub receipt_keys : List String
receipt_keys =
    "kind" ∷ "routine_id" ∷ "scheduled_anchor_ts" ∷ "run_id" ∷ "sent" ∷ "delivered_at_ts" ∷ "source"
    ∷ "deadman_ping" ∷ "deadman_ping_at" ∷ "capture_rows" ∷ []

abbrev pub deadman_outcomes : List String
deadman_outcomes = "OK" ∷ "not_found" ∷ "error" ∷ "unset" ∷ []

abbrev pub secretish : List String
secretish = "token" ∷ "secret" ∷ "password" ∷ "api_key" ∷ "telegram" ∷ "private_key" ∷ []

abbrev pub secret_needles : List String
secret_needles =
    "telegram_bot_token" ∷ "begin rsa private" ∷ "begin openssh private" ∷ "private_key" ∷ []

-- `any(needle in text for needle in needles)`
unfoldable pub any_in : List String → String → Bool
any_in [] s = false
any_in (needle ∷ needles) s = contains needle s || any_in needles s

unfoldable pub all_known : Dict Json → Bool
all_known [] = true
all_known ((key, _) ∷ raw) = text_in key receipt_keys && all_known raw

unfoldable pub any_secretish : Dict Json → Bool
any_secretish [] = false
any_secretish ((key, _) ∷ raw) = any_in secretish (lower key) || any_secretish raw

-- Whether a value is true.
abbrev pub truth : Json → Bool
truth null = false
truth (bool b) = b
truth (int (pos n)) = not (n == 0)
truth (int (negsuc _)) = true
truth (text s) = truthy (some s)
truth (other b s) = b

abbrev pub str : Platform → Json → String
str p (text s) = s
str p v = p.show v

-- `str(raw.get(key) or "")`
abbrev pub text_or_empty : Platform → Option Json → String
text_or_empty p none = ""
text_or_empty p (some v) = if truth v then str p v else ""

abbrev pub is_text : String → Option Json → Bool
is_text s (some (text t)) = str_eq t s
is_text s _ = false

abbrev pub text_among : List String → Option Json → Bool
text_among values (some (text s)) = text_in s values
text_among values _ = false

-- `is True`
abbrev pub is_true : Option Json → Bool
is_true (some (bool b)) = b
is_true _ = false

-- `capture_rows` is a count, null or absent.
abbrev pub good_rows : Option Json → Bool
good_rows none = true
good_rows (some null) = true
good_rows (some (int (pos _))) = true
good_rows _ = false

-- `anchor_utc`, of a text.
unfoldable pub anchor_utc : Platform → String → Result ReceiptError ℕ
anchor_utc p s =
    raise_if (not (truthy (some (strip s)))) no_anchor
    >> or_raise (p.parse_utc (strip s)) bad_anchor

-- `_validate_deadman`
unfoldable pub validate_deadman : Platform → Dict Json → Result ReceiptError (Unit {0})
validate_deadman p raw =
    let ping = lookup "deadman_ping" raw in
    let at = lookup "deadman_ping_at" raw in
    if is_none ping && is_none at
    then ok tt
    else if is_none ping || is_none at
    then err half_deadman
    else if not (text_among deadman_outcomes ping)
    then err bad_outcome
    else if is_none (p.parse_utc (text_or_empty p at))
    then err bad_ping_time
    else ok tt

-- `validate_receipt_payload`
unfoldable pub validate_receipt_payload : Platform → Dict Json → Result ReceiptError (Dict Json)
validate_receipt_payload p raw =
    raise_if (not (all_known raw)) extra_keys
    >> raise_if (any_secretish raw) secret_key
    >> raise_if (any_in secret_needles (p.dumped raw)) secret_material
    >> raise_if (not (is_text "deliver_receipt" (lookup "kind" raw))) wrong_kind
    >> raise_if (not (is_true (lookup "sent" raw))) not_sent_true
    >> raise_if (not (good_rows (lookup "capture_rows" raw))) bad_rows
    >> raise_if (not (truthy (some (text_or_empty p (lookup "routine_id" raw))))) no_routine
    >> (anchor_utc p (text_or_empty p (lookup "scheduled_anchor_ts" raw))
        >>= (λ _. validate_deadman p raw >> ok raw))

-- `_load_receipt_object` and `load_receipt`
unfoldable pub load_receipt : Platform → Content → Result ReceiptError (Dict Json)
load_receipt p not_json = err unreadable
load_receipt p not_object = err no_object
load_receipt p (object raw) = validate_receipt_payload p raw

-- `_safe_routine`
unfoldable pub safe_routine : String → Result ReceiptError String
safe_routine routine_id =
    raise_if (not (truthy (some (safe_id routine_id)))) no_routine >> ok (safe_id routine_id)

-- `receipt_filename`
unfoldable pub receipt_filename : Platform → String → String → Result ReceiptError String
receipt_filename p routine_id anchor = safe_routine routine_id >>= (λ safe.
    anchor_utc p anchor
    >>= (λ at. ok (append safe (append "__" (append (p.compact at) ".deliver.json")))))

pub data Decision : Type 0 where
  proceed already_delivered : Decision

-- `decide_deliver`, once the file's name is there.
unfoldable pub decide_at : Platform → Files → String → Result ReceiptError Decision
decide_at p files name = elim (lookup name files) [
  | none ↦ ok proceed
  | some content ↦ elim (load_receipt p content) [
    | err _ ↦ err not_usable
    | ok _ ↦ ok already_delivered
  ]
]

-- `decide_deliver`
unfoldable pub decide_deliver : Platform → Files → String → String → Result ReceiptError Decision
decide_deliver p files routine_id anchor =
    receipt_filename p routine_id anchor >>= (λ name. decide_at p files name)

-- `find_receipt`
unfoldable pub find_receipt : Platform → Files → String → String → Option String
find_receipt p files routine_id anchor = elim (receipt_filename p routine_id anchor) [
  | err _ ↦ none
  | ok name ↦ if is_none (lookup name files) then none else some name
]
