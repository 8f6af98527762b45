-- ===== src/Memory/Observations/Examples.antt =====
-- packages/memory/src/mm_memory/repository.py on small inputs: two prices of one slot.
use market_memory.Memory.Observations.Put.{put_observation-IsValid}
use market_memory.Prelude.{Result, false, none, some, [], ◌∷◌, map, String, ◌≡◌, refl, ok, err}
use market_memory.Prelude.Members.{Memᴰ}
use market_memory.Prelude.Members.Memᴰ
use market_memory.Memory.Rows.{
  exchange, fact, HashPayload, ObservationEnvelope, ok_quality, DataQuality, Db, FreshIds,
  PutResult, fill_defaults, hash_payload, slot_payload, IntegrityError, find_source, find_claim,
  taken, Observation, contradicted,
}
use market_memory.Memory.Observations.{
  put_observation, put_row, insert_row, row_of, ensure_source, link_contradictions, link_others,
  others_of, link, has_link, demote,
}
use market_memory.Memory.Observations.Laws.{IsValid}
use market_memory.Memory.Observations.Again.{put_again}

-- A digest that keeps the metric and the value.
abbrev digest : HashPayload → String
digest h = elim h.value [ none ↦ "slot" | some none ↦ "none" | some (some v) ↦ v ]

abbrev claim_of : String → ObservationEnvelope
claim_of price = fill_defaults digest (record {
  source_name = "venue";
  source_kind = exchange;
  source_url_or_id = "venue/btc";
  published_at = 100;
  ingested_at = 110;
  market_time = some 90;
  claim_text = price;
  claim_hash = "";
  confidence = 1;
  evidence_type = fact;
  data_quality = ok_quality;
  payload = "{}";
  raw_object_key = none;
  raw_object_checksum = none;
  as_of_knowledge = none;
  instrument = "BTC";
  metric = "price";
  identity = record {
    source_name = "venue";
    instrument = "BTC";
    metric = "price";
    market_time = some 90;
    value = some price;
    extras = [];
  };
})

abbrev draws_of : String → FreshIds
draws_of n = record { source_id = n; raw_id = n; observation_id = n }

abbrev empty : Db
empty = record { sources = []; raw_objects = []; observations = []; links = [] }

empty-IsValid : IsValid empty
empty-IsValid = record {
  distinct = tt;
  known = λ o m. absurd (Memᴰ.not-nil m);
  settled = λ a b m n. absurd (Memᴰ.not-nil m);
  linked = λ a b m n. absurd (Memᴰ.not-nil m);
}

abbrev Answer : Type 0
Answer = Result IntegrityError (PutResult × Db)

abbrev put_price : String → String → Db → Answer
put_price n price db = put_observation digest (draws_of n) (λ d. d) (claim_of price) none none db

abbrev unset : PutResult × Db
unset = (
  record {
    observation =
        row_of digest "" (record { id = ""; name = ""; kind = exchange }) (claim_of "")
          (none, none);
    created = false;
    contradicted = false;
  },
  empty,
)

abbrev left : Answer → PutResult × Db
left (ok w) = w
left (err _) = unset

abbrev first : PutResult × Db
first = left (put_price "a" "10" empty)

-- A second price in the slot contradicts the first one.
abbrev second : PutResult × Db
second = left (put_price "b" "20" first.1)

first_put : put_price "a" "10" empty ≡ ok first
unfolding put_observation put_row insert_row row_of ensure_source link_contradictions others_of
    find_source find_claim taken fill_defaults hash_payload slot_payload
first_put = refl

second_put : put_price "b" "20" first.1 ≡ ok second
unfolding put_observation put_row insert_row row_of ensure_source link_contradictions others_of
    link_others link has_link demote find_source find_claim taken fill_defaults hash_payload
    slot_payload
second_put = refl

second_contradicts :
    map {B = String × DataQuality}
      (λ (o : Observation). (o.claim_hash, o.data_quality))
      second.1.observations
    ≡ ("10", contradicted) ∷ ("20", contradicted) ∷ []
unfolding put_observation put_row insert_row row_of ensure_source link_contradictions others_of
    link_others link has_link demote find_source find_claim taken fill_defaults hash_payload
    slot_payload
second_contradicts = refl

put_observation-IsValid_example : IsValid second.1
put_observation-IsValid_example =
    put_observation-IsValid digest (draws_of "b") (λ d. d) (claim_of "20") none none first.1
      (put_observation-IsValid digest (draws_of "a") (λ d. d) (claim_of "10") none none empty
        empty-IsValid (λ d v. v) first_put)
      (λ d v. v) second_put

put_again_example :
    (o : Observation) × (put_observation digest
        (draws_of "c")
        (λ d. empty)
        (claim_of "20")
        none
        none
        second.1
      ≡ ok (record { observation = o; created = false; contradicted = false }, second.1))
    × Memᴰ o second.1.observations
    × (o.claim_hash ≡ (claim_of "20").claim_hash)
    × (o.id ≡ second.0.observation.id)
put_again_example =
    put_again digest (draws_of "b") (draws_of "c") (λ d. empty) (claim_of "20") none none first.1
      second_put
