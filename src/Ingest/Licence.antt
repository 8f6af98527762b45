-- ===== src/Ingest/Licence.antt =====
-- packages/ingest/src/mm_ingest/licence.py: the licence verdicts of adapters and the filter of
-- published values. A block of ingest.yaml is its fields with str of their values; an empty text
-- stands for a value that is false.
pub mod Laws
mod Examples
use market_memory.Prelude.{
  ℕ, Bool, true, false, ◌&&◌, ◌||◌, not, Option, none, some, List, [], ◌∷◌, map, String, str_eq,
  text_in, if◌then◌else◌, strip, lower, or_default, contains, truthy, ◌==◌, is_none,
}
use Prim.Native.Char.{Char, code}
use market_memory.Prelude.Dict.{Dict, lookup, insert}

abbrev pub Block : Type 0
Block = Dict String

-- The parts of the settings that are read: none is an adapter that is no mapping.
pub record Settings : Type 0 where
  pub adapters : Dict (Option Block)
  pub equities : Block
  pub macro_fred : Block
  pub macro_calendar : Block
  pub macro_edgar : Block
  pub spot_coingecko : Block
  pub spot_binance : Block
  pub venue_licence_verdict : String
  pub licence_verdict : String
  pub licence_notes : String
  pub standing_rule : String
  pub closed_set : List String

-- `CLOSED_SET`
abbrev pub closed_verdicts : List String
closed_verdicts =
    "ok_gov" ∷ "ok_attr" ∷ "restricted" ∷ "prohibited" ∷ "pending_terms" ∷ "missing" ∷ []

-- `PUBLISHABLE`
abbrev pub publishable : List String
publishable = "ok_gov" ∷ "ok_attr" ∷ []

-- `REQUIRED_ADAPTERS`
abbrev pub required_adapters : List String
required_adapters =
    "hyperliquid" ∷ "polygon" ∷ "coingecko" ∷ "binance" ∷ "fred" ∷ "calendar" ∷ "stooq" ∷ "edgar"
    ∷ "treasury" ∷ "yahoo" ∷ "tiingo" ∷ "finnhub" ∷ "binance.vision" ∷ []

-- `LicenceVerdict`
pub record LicenceVerdict : Type 0 where
  pub adapter : String
  pub verdict : String
  pub notes : String
  pub attribution : String

-- `.replace("-", "_").replace(" ", "_")`
unfoldable pub underlined : String → String
underlined String.[] = String.[]
underlined (String.◌∷◌ c s) =
    String.◌∷◌ (if code c == b'-' || code c == b' ' then "_" else c) (underlined s)

-- `VERDICT_ALIASES.get(value, value)`
unfoldable pub unaliased : String → String
unaliased value =
    if text_in value ("redistributable_official" ∷ "redistributable" ∷ "ok-gov" ∷ [])
    then "ok_gov"
    else value

-- `normalize_verdict`
unfoldable pub normalize_verdict : String → String
normalize_verdict raw =
    let value = unaliased (underlined (lower (strip raw))) in
    if text_in value closed_verdicts then value else "missing"

-- `str(block.get(key) or "")`
unfoldable pub field : String → Block → String
field key block = elim (lookup key block) [ none ↦ "" | some s ↦ s ]

-- `_adapter_block`
unfoldable pub adapter_block : String → Settings → Block
adapter_block name s = elim (lookup name s.adapters) [ some (some block) ↦ block | _ ↦ [] ]

-- The nested maps of the settings.
unfoldable pub nested_block : String → Settings → Block
nested_block name s =
    if str_eq name "polygon"
    then s.equities
    else if str_eq name "fred"
    then s.macro_fred
    else if str_eq name "calendar"
    then s.macro_calendar
    else if str_eq name "edgar"
    then s.macro_edgar
    else if str_eq name "coingecko"
    then s.spot_coingecko
    else if str_eq name "binance"
    then s.spot_binance
    else if str_eq name "hyperliquid"
    then ("licence_verdict", or_default s.venue_licence_verdict s.licence_verdict)
      ∷ ("notes", s.licence_notes)
      ∷ []
    else []

unfoldable pub block_for : String → Settings → Block
block_for name s = elim (adapter_block name s) [
  | [] ↦ nested_block name s
  | entry ∷ block ↦ entry ∷ block
]

-- `verdict_for`
unfoldable pub verdict_for : String → Settings → LicenceVerdict
verdict_for name s =
    let block = block_for name s in
    record {
      adapter = name;
      verdict = normalize_verdict (field "licence_verdict" block);
      notes = or_default (field "licence_notes" block) (field "notes" block);
      attribution = field "attribution" block;
    }

-- `LicenceVerdict.may_publish_value`
abbrev pub publishes : LicenceVerdict → Bool
publishes v = text_in v.verdict publishable

-- `may_publish_value`
unfoldable pub may_publish_value : String → Settings → Bool
may_publish_value adapter s = publishes (verdict_for adapter s)

pub data LicenceError : Type 0 where
  no_standing_rule : LicenceError
  missing_verdicts : List String → LicenceError
  open_set : LicenceError

-- The adapters without a verdict of their own.
unfoldable pub missing_adapters : Settings → List String → List String
missing_adapters s [] = []
missing_adapters s (name ∷ names) =
    let rest = missing_adapters s names in
    if str_eq (normalize_verdict (field "licence_verdict" (adapter_block name s))) "missing"
    then name ∷ rest
    else rest

-- The text of `standing_rule`, which is the canonical one where the settings have none.
abbrev pub rule_of : Settings → String
rule_of s =
    or_default (strip s.standing_rule)
      "Sources whose terms prohibit redistribution may be used for internal computation but values must never appear in published artifacts."

-- `closed`
abbrev pub closed_of : Settings → List String
closed_of s = elim s.closed_set [ [] ↦ closed_verdicts | v ∷ vs ↦ v ∷ vs ]

-- `assert_licence_invariants`, on the settings that it loads: the error that it raises, if any.
unfoldable pub assert_licence_invariants : Settings → Option LicenceError
assert_licence_invariants s =
    if not (contains "Sources" (rule_of s))
      && not (contains "prohibit redistribution" (lower (rule_of s)))
    then some no_standing_rule
    else elim (missing_adapters s required_adapters) [
      | name ∷ names ↦ some (missing_verdicts (name ∷ names))
      | [] ↦
          if text_in "ok_gov" (closed_of s) && text_in "ok_attr" (closed_of s)
          then none
          else some open_set
    ]

-- A value of a row; one that is no text, boolean or null is its truth and its str.
pub data Cell : Type 0 where
  null : Cell
  flag : Bool → Cell
  text : String → Cell
  other : Bool → String → Cell

abbrev pub Row : Type 0
Row = Dict Cell

-- `str(item.get(source_key) or "")`
unfoldable pub source_of : String → Row → String
source_of source_key row = elim (lookup source_key row) [
  | some (text s) ↦ s
  | some (flag true) ↦ "True"
  | some (other true s) ↦ s
  | _ ↦ ""
]

-- The body of the loop of `filter_published_values`.
unfoldable pub published : String → String → Settings → Row → Row
published source_key value_key s row =
    let source = source_of source_key row in
    let redacted =
      insert "redact_reason"
        (text "licence_verdict forbids published values; internal compute only")
        (insert "value_redacted" (flag true) (insert value_key null row)) in
    let kept = insert "value_redacted" (flag false) row in
    insert "licence_verdict" (text (verdict_for source s).verdict)
      (if not (may_publish_value source s) then redacted else kept)

-- `filter_published_values`
unfoldable pub filter_published_values : String → String → Settings → List Row → List Row
filter_published_values source_key value_key s rows = map (published source_key value_key s) rows
