-- ===== src/Desks/Store/Laws.antt =====
-- The store keeps one envelope of a key, and its order names only envelopes it has.
use market_memory.Prelude.{
  inr, inl, ◌≡◌, refl, true, false, Bool, Option, none, some, List, [], ◌∷◌, ◌++◌, String, eq_iff,
  arith, Option-cases, is_none, not, ◌&&◌,
}
use market_memory.Prelude.Dict.{Dict, lookup, insert, lookup-insert}
use market_memory.Desks.Store.{Envelope, EnvelopeStore, has_key, put, latest, latest_from}

all_known : Dict Envelope → List String → Bool
all_known by_id [] = true
all_known by_id (i ∷ order) = not (is_none (lookup i by_id)) && all_known by_id order

-- Every id of the order is a key, so that no lookup of the store's methods fails.
unfoldable pub IsValid : EnvelopeStore → Type 0
unfolding all_known
IsValid s = all_known s.by_id s.order ≡ true

has_key-insert : (e : Envelope) (d : Dict Envelope) → has_key e (insert e.envelope_id e d) ≡ true
unfolding has_key insert
has_key-insert e [] = ground (
  arith,
  eq_iff e.desk e.desk,
  eq_iff e.as_of_utc e.as_of_utc,
  eq_iff e.content_hash e.content_hash,
)
has_key-insert e ((j, f) ∷ d) = ground (
  arith,
  has_key-insert e d,
  eq_iff e.desk e.desk,
  eq_iff e.as_of_utc e.as_of_utc,
  eq_iff e.content_hash e.content_hash,
)

-- A second put of the same envelope creates no row and leaves the store as it is.
pub put_twice : (e : Envelope) (s : EnvelopeStore) → put e (put e s).1 ≡ (false, (put e s).1)
unfolding put
put_twice e s = ground (arith, has_key-insert e s.by_id)

lookup_self : (k : String) (e : Envelope) (d : Dict Envelope) → lookup k (insert k e d) ≡ some e
lookup_self k e d = ground (arith, lookup-insert k k e d, eq_iff k k)

all_known-insert :
    (k : String) (e : Envelope) (d : Dict Envelope) (order : List String)
    → all_known d order ≡ true
    → all_known (insert k e d) (order ++ (k ∷ [])) ≡ true
unfolding all_known
all_known-insert k e d [] h = ground (arith, lookup_self k e d)
all_known-insert k e d (i ∷ order) h =
    ground (arith, lookup-insert k i e d, all_known-insert k e d order)

-- A put keeps the property that the order of the store names only its keys.
pub put-IsValid : (e : Envelope) (s : EnvelopeStore) → IsValid s → IsValid (put e s).1
unfolding put IsValid
put-IsValid e s v = ground (arith, all_known-insert e.envelope_id e s.by_id s.order)

module _ (by_id : Dict Envelope) (e : Envelope) where
  latest_last :
      (found : Option Envelope) (order : List String)
      → lookup e.envelope_id by_id ≡ some e
      → all_known by_id order ≡ true
      → latest_from by_id e.desk e.as_of_utc found (order ++ (e.envelope_id ∷ [])) ≡ some (some e)
  unfolding latest_from all_known
  latest_last found [] l h = ground (arith, eq_iff e.desk e.desk, eq_iff e.as_of_utc e.as_of_utc)
  latest_last found (i ∷ order) l h = elim (Option-cases (lookup i by_id)) [
    | inl n ↦ ground arith
    | inr (f, n) ↦ ground (arith, latest_last (some f) order, latest_last found order)
  ]

all_known_keep :
    (k : String) (e : Envelope) (d : Dict Envelope) (order : List String)
    → all_known d order ≡ true
    → all_known (insert k e d) order ≡ true
unfolding all_known
all_known_keep k e d [] h = refl
all_known_keep k e d (i ∷ order) h =
    ground (arith, lookup-insert k i e d, all_known_keep k e d order)

-- In a store whose order names only its keys, after a put that created a row, latest of the
-- envelope's desk and time returns the envelope.
pub latest-put :
    (e : Envelope) (s : EnvelopeStore)
    → IsValid s
    → (put e s).0 ≡ true
    → latest e.desk e.as_of_utc (put e s).1 ≡ some (some e)
unfolding put latest IsValid
latest-put e s v h = ground (
  arith,
  latest_last (insert e.envelope_id e s.by_id) e none s.order (lookup_self e.envelope_id e s.by_id)
      (all_known_keep e.envelope_id e s.by_id s.order v),
)
