-- ===== src/Desks/Store.antt =====
-- packages/desks/src/mm_desks/bus.py: the envelope store in memory. An envelope is the fields
-- the store reads; its time is the text of as_of_utc in UTC.
pub mod Laws
use market_memory.Prelude.{
  Bool, true, false, ◌&&◌, ◌||◌, Option, none, some, List, [], ◌∷◌, ◌++◌, String, str_eq,
  if◌then◌else◌,
}
use market_memory.Prelude.Dict.{Dict, lookup, insert}

pub record Envelope : Type 0 where
  pub envelope_id : String
  pub desk : String
  pub as_of_utc : String
  pub content_hash : String

-- `InMemoryEnvelopeStore`
pub record EnvelopeStore : Type 0 where
  pub by_id : Dict Envelope
  pub order : List String

abbrev pub same_key : Envelope → Envelope → Bool
same_key e f =
    str_eq e.desk f.desk && (str_eq e.as_of_utc f.as_of_utc && str_eq e.content_hash f.content_hash)

unfoldable pub has_key : Envelope → Dict Envelope → Bool
has_key e [] = false
has_key e ((_, f) ∷ d) = same_key f e || has_key e d

unfoldable pub put : Envelope → EnvelopeStore → Bool × EnvelopeStore
put e s = if has_key e s.by_id then (false, s) else (
  true,
  record { by_id = insert e.envelope_id e s.by_id; order = s.order ++ (e.envelope_id ∷ []) },
)

unfoldable pub get : String → EnvelopeStore → Option Envelope
get envelope_id s = lookup envelope_id s.by_id

abbrev matches : String → String → Envelope → Bool
matches desk as_of e = str_eq e.desk desk && str_eq e.as_of_utc as_of

-- The loop of `latest` with `found`. The outer none is a missing id.
unfoldable pub latest_from :
    Dict Envelope → String → String → Option Envelope → List String → Option (Option Envelope)
latest_from by_id desk as_of found [] = some found
latest_from by_id desk as_of found (i ∷ order) = elim (lookup i by_id) [
  | none ↦ none
  | some e ↦ latest_from by_id desk as_of (if matches desk as_of e then some e else found) order
]

unfoldable pub latest : String → String → EnvelopeStore → Option (Option Envelope)
latest desk as_of s = latest_from s.by_id desk as_of none s.order

unfoldable pub list_from : Dict Envelope → String → List String → Option (List Envelope)
list_from by_id as_of [] = some []
list_from by_id as_of (i ∷ order) = elim (lookup i by_id) [
  | none ↦ none
  | some e ↦ elim (list_from by_id as_of order) [
    | none ↦ none
    | some rest ↦ some (if str_eq e.as_of_utc as_of then e ∷ rest else rest)
  ]
]

unfoldable pub list_for_as_of : String → EnvelopeStore → Option (List Envelope)
unfolding list_from
list_for_as_of as_of s = list_from s.by_id as_of s.order
