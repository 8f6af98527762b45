-- ===== src/Delivery/Format.antt =====
-- packages/delivery/src/mm_delivery/format.py: the escape for MarkdownV2 and the chunks of a text.
pub mod Laws
use Prim.Native.Char.{Char, code}
use Prim.Native.String.{◌++◌ as append}
use market_memory.Prelude.{
  ℕ, zero, suc, ◌+◌, ◌-◌, ◌/◌, ◌*◌, Bool, true, false, ◌&&◌, ◌||◌, not, Option, none, some, List,
  [], ◌∷◌, String, str_eq, if◌then◌else◌, strip, ltb, leb, ◌==◌, starts_with, truthy,
}
use Prim.Native.Nat.{◌%◌}

unfoldable pub text_length : String → ℕ
text_length String.[] = 0
text_length (String.◌∷◌ c s) = suc (text_length s)

-- `text[:n]` and `text[n:]`
unfoldable pub take_text : ℕ → String → String
take_text zero s = String.[]
take_text (suc n) String.[] = String.[]
take_text (suc n) (String.◌∷◌ c s) = String.◌∷◌ c (take_text n s)

unfoldable pub drop_text : ℕ → String → String
drop_text zero s = s
drop_text (suc n) String.[] = String.[]
drop_text (suc n) (String.◌∷◌ c s) = drop_text n s

-- `MARKDOWN_V2_SPECIAL`
is_special : Char → Bool
is_special c =
    code c == b'_'
    || code c == b'*'
    || code c == b'['
    || code c == b']'
    || code c == b'('
    || code c == b')'
    || code c == b'~'
    || code c == b'`'
    || code c == b'>'
    || code c == b'#'
    || code c == b'+'
    || code c == b'-'
    || code c == b'='
    || code c == b'|'
    || code c == b'{'
    || code c == b'}'
    || code c == b'.'
    || code c == b'!'
    || code c == 92

is_special_in_fence : Char → Bool
is_special_in_fence c = code c == 92 || code c == b'`'

escape_where : (Char → Bool) → String → String
escape_where special String.[] = String.[]
escape_where special (String.◌∷◌ c s) =
    let rest = String.◌∷◌ c (escape_where special s) in if special c then append "\\" rest else rest

split_lines : String → List String
split_lines String.[] = String.[] ∷ []
split_lines (String.◌∷◌ c s) = elim (split_lines s) [
  | [] ↦ []
  | line ∷ lines ↦ if code c == 10 then String.[] ∷ line ∷ lines else String.◌∷◌ c line ∷ lines
]

join_lines : List String → String
join_lines [] = String.[]
join_lines (line ∷ []) = line
join_lines (line ∷ next ∷ lines) = append line (append "\n" (join_lines (next ∷ lines)))

escape_lines : Bool → List String → List String
unfolding escape_where is_special is_special_in_fence
escape_lines in_fence [] = []
escape_lines in_fence (line ∷ lines) = elim (str_eq (strip line) "```") [
  | true ↦ "```" ∷ escape_lines (not in_fence) lines
  | false ↦
      escape_where (if in_fence then is_special_in_fence else is_special) line
      ∷ escape_lines in_fence lines
]

has_fence : String → Bool
has_fence String.[] = false
has_fence (String.◌∷◌ c s) = starts_with (String.◌∷◌ c s) "```" || has_fence s

unfoldable pub escape_markdown_v2 : String → String
unfolding has_fence escape_where is_special escape_lines join_lines split_lines
escape_markdown_v2 text =
    if has_fence text
    then join_lines (escape_lines false (split_lines text))
    else escape_where is_special text

-- `window.rfind`, of a character by its code.
rfind : ℕ → String → Option ℕ
rfind n String.[] = none
rfind n (String.◌∷◌ c s) = elim (rfind n s) [
  | none ↦ if code c == n then some 0 else none
  | some k ↦ some (suc k)
]

below : Option ℕ → ℕ → Bool
below none n = true
below (some k) n = ltb k n

cut_or_all : Option ℕ → String → ℕ
cut_or_all none window = text_length window
cut_or_all (some zero) window = text_length window
cut_or_all (some (suc k)) window = suc (suc k)

-- Where a window is cut: behind its last newline, or else its last space, or else at its end.
unfoldable pub cut_of : ℕ → String → ℕ
unfolding rfind below cut_or_all
cut_of budget window =
    cut_or_all (if below (rfind 10 window) (budget / 4) then rfind b' ' window else rfind 10 window)
      window

unfoldable pub drop_backslash : String → String
drop_backslash String.[] = String.[]
drop_backslash (String.◌∷◌ c String.[]) = if code c == 92 then String.[] else String.◌∷◌ c String.[]
drop_backslash (String.◌∷◌ c (String.◌∷◌ d s)) = String.◌∷◌ c (drop_backslash (String.◌∷◌ d s))

abbrev pub window_of : ℕ → String → String
window_of budget rest =
    if ltb budget (text_length rest)
    then take_text (cut_of budget (take_text budget rest)) (take_text budget rest)
    else rest

-- The piece at the head of what is left, at least one character.
unfoldable pub next_piece : ℕ → String → String
next_piece budget rest =
    let piece = drop_backslash (window_of budget rest) in
    if truthy (some piece) then piece else take_text 1 rest

-- The loop of `_split_escaped`, on what is left, with fuel.
unfoldable pub split_from : ℕ → ℕ → String → List String
split_from zero budget rest = []
split_from (suc fuel) budget String.[] = []
split_from (suc fuel) budget (String.◌∷◌ c s) =
    let piece = next_piece budget (String.◌∷◌ c s) in
    piece ∷ split_from fuel budget (drop_text (text_length piece) (String.◌∷◌ c s))

-- `_split_escaped`: every piece takes a character, so the length of the text is fuel enough.
unfoldable pub split_escaped : ℕ → String → List String
split_escaped budget escaped = split_from (text_length escaped) budget escaped

digits : ℕ → ℕ → String
digits zero n = String.[]
digits (suc fuel) n =
    let last = take_text 1 (drop_text (n % 10) "0123456789") in
    let front = digits fuel (n / 10) in if n / 10 == 0 then last else append front last

-- `sequence_prefix`
unfoldable pub sequence_prefix : ℕ → ℕ → String
unfolding digits
sequence_prefix index total = escape_markdown_v2 (
    append "["
      (append (digits (suc index) index) (append "/" (append (digits (suc total) total) "]\n"))))

abbrev at_least_one : ℕ → ℕ
at_least_one zero = 1
at_least_one (suc n) = suc n

abbrev numbered : ℕ → String → String → String
numbered limit prefix body =
    if ltb limit (text_length (append prefix body))
    then append prefix (take_text (at_least_one (limit - text_length prefix)) body)
    else append prefix body

number_from : ℕ → ℕ → ℕ → List String → List String
number_from limit total i [] = []
number_from limit total i (body ∷ bodies) =
    numbered limit (sequence_prefix i total) body ∷ number_from limit total (suc i) bodies

count : List String → ℕ
count [] = 0
count (_ ∷ bodies) = suc (count bodies)

-- `chunk_markdown_v2`: none for the ValueError of a limit below 32.
unfoldable pub chunk_markdown_v2 : ℕ → String → Option (List String)
unfolding number_from count
chunk_markdown_v2 limit text =
    let escaped = escape_markdown_v2 text in
    if ltb limit 32
    then none
    else if leb (text_length escaped) limit
    then some (escaped ∷ [])
    else let bodies =
        split_escaped (at_least_one (limit - text_length (sequence_prefix 1 999))) escaped in
      some (number_from limit (count bodies) 1 bodies)
