-- ===== src/Research/Markdown.antt =====
-- packages/research_kit/src/mm_research_kit/markdown.py: the `- **Label:** value` lines of an
-- artifact. A document is those lines in their order; the other lines play no part in a field.
pub mod Laws
use Prim.Native.Char.{Char, code}
use market_memory.Prelude.{
  ℕ, zero, suc, Bool, true, false, ◌&&◌, ◌||◌, not, Option, none, some, List, [], ◌∷◌, String,
  str_eq, if◌then◌else◌, norm, strip, lower, Result, ok, err, is_none, truthy, ◌==◌, leb,
  starts_with,
}
use market_memory.Research.Errors.{GateError}

-- A line that `_FIELD_LINE` matches: its second and its fourth group.
pub record FieldLine : Type 0 where
  pub label : String
  pub value : String

abbrev pub Document : Type 0
Document = List FieldLine

-- The loop of `get_field`, with `prefix_hit`.
get_from : String → Option String → Document → Option String
get_from wanted hit [] = hit
get_from wanted hit (l ∷ ls) =
    let next =
      get_from wanted
        (if is_none hit && starts_with (norm l.label) wanted then some (strip l.value) else hit)
        ls in
    if str_eq (norm l.label) wanted then some (strip l.value) else next

unfoldable pub get_field : Document → String → Option String
unfolding get_from
get_field d field = get_from (norm field) none d

abbrev next_index : Option ℕ → Option ℕ
next_index none = none
next_index (some i) = some (suc i)

-- `_find_field_line`
find_field_line : Document → String → Bool → Option ℕ
find_field_line [] wanted exact = none
find_field_line (l ∷ ls) wanted exact =
    let rest = next_index (find_field_line ls wanted exact) in
    if exact && str_eq (norm l.label) wanted
    then some 0
    else if not exact && starts_with (norm l.label) wanted
    then some 0
    else rest

-- `lines[idx] = f"- **{match.group(2)}:** {value}"`
write_line : Document → ℕ → String → Document
write_line [] i v = []
write_line (l ∷ ls) zero v = record l { value = v } ∷ ls
write_line (l ∷ ls) (suc i) v = l ∷ write_line ls i v

unfoldable pub set_field : Document → String → String → Result GateError Document
unfolding find_field_line write_line
set_field d field v = elim (find_field_line d (norm field) true) [
  | some i ↦ ok (write_line d i v)
  | none ↦ elim (find_field_line d (norm field) false) [
    | some i ↦ ok (write_line d i v)
    | none ↦ err (GateError.field_not_found field)
  ]
]

-- The text before the first character of a kind.
take_until : (Char → Bool) → String → String
take_until stop String.[] = String.[]
take_until stop (String.◌∷◌ c s) =
    let rest = take_until stop s in if stop c then String.[] else String.◌∷◌ c rest

abbrev is_slash : Char → Bool
is_slash c = code c == b'/'

abbrev is_blank : Char → Bool
is_blank c =
    code c == b' ' || leb 9 (code c) && leb (code c) 13 || leb 28 (code c) && leb (code c) 31

-- `first_token`: the first word before a slash. A value with no word there raises IndexError.
unfoldable pub first_token : Option String → Result GateError String
unfolding take_until
first_token none = ok ""
first_token (some v) =
    let head = strip (take_until is_slash v) in
    if not (truthy (some v))
    then ok ""
    else if not (truthy (some head))
    then err GateError.index_error
    else ok (norm (take_until is_blank head))
