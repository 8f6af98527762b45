-- ===== src/Ingest/Licence/Examples.antt =====
-- packages/ingest/src/mm_ingest/licence.py on a venue that may be published and a feed that may not.
use market_memory.Prelude.{
  str_eq, if◌then◌else◌, arith, ◌++◌, true, false, none, some, List, [], ◌∷◌, String, ◌≡◌, ◌≢◌,
  refl, strip, lower, contains, Option, map,
}
use market_memory.Prelude.Members.{Memᴰ}
use market_memory.Prelude.Dict.{Dict, lookup, insert}
use market_memory.Ingest.Licence.{
  Settings, Block, required_adapters, normalize_verdict, field, adapter_block, verdict_for,
  block_for, underlined, unaliased, assert_licence_invariants, missing_adapters, null, text, flag,
  Row, source_of, published, filter_published_values, may_publish_value,
}
use market_memory.Ingest.Licence.Laws.{
  filter_published_values-IsPublished, required_recorded, IsPublished,
}

abbrev adapter : String → Block
adapter name =
    ("licence_verdict", if str_eq name "yahoo" then "prohibited" else "Redistributable") ∷ []

abbrev adapters_of : List String → Dict (Option Block)
adapters_of names = map {B = String × Option Block} (λ name. (name, some (adapter name))) names

abbrev settings : Settings
settings = record {
  adapters = adapters_of required_adapters;
  equities = [];
  macro_fred = [];
  macro_calendar = [];
  macro_edgar = [];
  spot_coingecko = [];
  spot_binance = [];
  venue_licence_verdict = "";
  licence_verdict = "";
  licence_notes = "";
  standing_rule = "";
  closed_set = [];
}

abbrev row_from : String → String → Row
row_from source value = ("source", text source) ∷ ("value", text value) ∷ []

abbrev rows : List Row
rows = row_from "fred" "4.25" ∷ row_from "yahoo" "101" ∷ []

abbrev kept : Row
kept =
    row_from "fred" "4.25"
    ++ ("value_redacted", flag false) ∷ ("licence_verdict", text "ok_gov") ∷ []

abbrev redacted : Row
redacted =
    ("source", text "yahoo")
    ∷ ("value", null)
    ∷ ("value_redacted", flag true)
    ∷ ("redact_reason", text "licence_verdict forbids published values; internal compute only")
    ∷ ("licence_verdict", text "prohibited")
    ∷ []

filtered : filter_published_values "source" "value" settings rows ≡ kept ∷ redacted ∷ []
unfolding filter_published_values published source_of may_publish_value verdict_for block_for
    adapter_block field normalize_verdict unaliased underlined lower strip lookup insert
filtered = refl

filter_published_values-IsPublished_example :
    IsPublished "source" "value" settings rows kept (text "4.25")
unfolding lookup
filter_published_values-IsPublished_example =
    filter_published_values-IsPublished "source" "value" settings refl rows kept (text "4.25")
      (rw filtered (Memᴰ.head refl)) refl (λ h. ground arith)

invariants_hold : assert_licence_invariants settings ≡ none
unfolding assert_licence_invariants missing_adapters adapter_block field normalize_verdict unaliased
    underlined lower strip contains lookup
invariants_hold = refl

required_recorded_example :
    ((verdict_for "hyperliquid" settings).verdict
      ≡ normalize_verdict (field "licence_verdict" (adapter_block "hyperliquid" settings)))
    × ((verdict_for "hyperliquid" settings).verdict ≢ "missing")
required_recorded_example =
    required_recorded settings "hyperliquid" invariants_hold (Memᴰ.head refl)
