-- ===== src/Memory/Observations.antt =====
-- packages/memory/src/mm_memory/repository.py: observations, their dedupe by claim hash and the
-- links between observations that contradict each other. What other sessions commit between a
-- search and the write that follows it is an argument. The digest of a claim is a parameter.
pub mod Demotion
pub mod Linking
pub mod Linked
pub mod Laws
pub mod Put
pub mod Again
pub mod Returns
mod Examples
use market_memory.Prelude.{
  is_none, leb, ℕ, Bool, true, false, ◌&&◌, ◌||◌, not, Option, none, some, List, [], ◌∷◌, ◌++◌, map,
  String, str_eq, if◌then◌else◌, Result, ok, err,
}
use market_memory.Memory.Rows.{
  SourceKind, HashPayload, slot_payload, ObservationEnvelope, Source, ObjectPointer, RawObject,
  Observation, Link, Db, FreshIds, IntegrityError, id_taken, PutResult, relation_eq, is_ok,
  is_rejected, contradicted, contradicts, Relation, find_source, find_raw, find_claim, taken,
  DataQuality, name_taken, key_taken, no_source, bad_confidence,
}

-- `ensure_source`: other sessions may commit between the select and the flush.
unfoldable pub ensure_source :
    String → String → SourceKind → (Db → Db) → Db → Result IntegrityError (Source × Db)
ensure_source id name kind arrive db = elim (find_source name db.sources) [
  | some existing ↦ ok (existing, db)
  | none ↦
      let source : Source = record { id = id; name = name; kind = kind } in
      let db' = arrive db in
      if taken (λ (s : Source). s.id) id db'.sources
      then err id_taken
      else if not (is_none (find_source name db'.sources))
      then err name_taken
      else ok (source, record db' { sources = db'.sources ++ (source ∷ []) })
]

-- `record_raw_object`
unfoldable pub record_raw_object :
    String → ObjectPointer → (Db → Db) → Db → Result IntegrityError (Option RawObject × Db)
record_raw_object id pointer arrive db =
    if str_eq pointer.key ""
    then ok (none, db)
    else elim (find_raw pointer.bucket pointer.key db.raw_objects) [
      | some existing ↦ ok (some existing, db)
      | none ↦
          let row : RawObject = record { id = id; pointer = pointer } in
          let db' = arrive db in
          if taken (λ (o : RawObject). o.id) id db'.raw_objects
          then err id_taken
          else if not (is_none (find_raw pointer.bucket pointer.key db'.raw_objects))
          then err key_taken
          else ok (some row, record db' { raw_objects = db'.raw_objects ++ (row ∷ []) })
    ]

abbrev pub link_eq : Link → Link → Bool
link_eq a b =
    str_eq a.observation_id b.observation_id
    && (str_eq a.related_observation_id b.related_observation_id
        && relation_eq a.relation b.relation)

unfoldable pub has_link : Link → List Link → Bool
has_link l [] = false
has_link l (k ∷ links) = link_eq k l || has_link l links

-- `link`
unfoldable pub link : String → String → Relation → Db → Option Link × Db
link from to relation db =
    let row : Link = record {
      observation_id = from;
      related_observation_id = to;
      relation = relation;
    } in
    if str_eq from to
    then (none, db)
    else if has_link row db.links
    then (some row, db)
    else (some row, record db { links = db.links ++ (row ∷ []) })

-- `row.data_quality = CONTRADICTED`, if it is OK, for the row of an id.
abbrev pub demoted : String → Observation → Observation
demoted id o =
    if str_eq o.id id && is_ok o.data_quality then record o { data_quality = contradicted } else o

unfoldable pub demote : String → Db → Db
demote id db = record db { observations = map (demoted id) db.observations }

-- The query of `_link_contradictions`.
abbrev pub is_other : Observation → Observation → Bool
is_other row o =
    not (str_eq o.id row.id)
    && (str_eq o.identity_hash row.identity_hash
        && (not (str_eq o.claim_hash row.claim_hash) && not (is_rejected o.data_quality)))

unfoldable pub others_of : Observation → List Observation → List Observation
others_of row [] = []
others_of row (o ∷ rest) =
    let others = others_of row rest in if is_other row o then o ∷ others else others

-- The loop of `_link_contradictions`.
unfoldable pub link_others : Observation → List Observation → Db → Db
link_others row [] db = db
link_others row (o ∷ others) db =
    link_others row others
      (demote o.id (link o.id row.id contradicts (link row.id o.id contradicts db).1).1)

-- `_link_contradictions`
unfoldable pub link_contradictions : Observation → Db → Bool × Db
link_contradictions row db = elim (others_of row db.observations) [
  | [] ↦ (false, db)
  | o ∷ others ↦ (true, demote row.id (link_others row (o ∷ others) db))
]

-- The key and the checksum of the raw object that the row has.
abbrev raw_of :
    ObservationEnvelope → Option ObjectPointer → Option RawObject → Option String × Option String
raw_of e none recorded = (e.raw_object_key, e.raw_object_checksum)
raw_of e (some pointer) none = (none, none)
raw_of e (some pointer) (some _) = (some pointer.key, some pointer.checksum_sha256)

-- The row of `values`; its knowledge time is the time of ingest.
unfoldable pub row_of :
    (HashPayload → String)
    → String
    → Source
    → ObservationEnvelope
    → Option String × Option String
    → Observation
row_of digest id source e (raw_key, raw_checksum) = record {
  id = id;
  source_id = source.id;
  source_url_or_id = e.source_url_or_id;
  published_at = e.published_at;
  ingested_at = e.ingested_at;
  market_time = e.market_time;
  claim_text = e.claim_text;
  claim_hash = e.claim_hash;
  identity_hash = digest (slot_payload e.identity);
  confidence = e.confidence;
  evidence_type = e.evidence_type;
  data_quality = e.data_quality;
  payload_json = e.payload;
  raw_object_key = raw_key;
  raw_object_checksum = raw_checksum;
  as_of_knowledge = e.ingested_at;
  instrument = e.instrument;
  metric = e.metric;
}

-- The insert with `on_conflict_do_nothing`, and what follows it.
unfoldable pub insert_row : Observation → Db → Result IntegrityError (PutResult × Db)
insert_row row db =
    if not (leb row.confidence 1000)
    then err bad_confidence
    else elim (find_claim row.claim_hash db.observations) [
      | some raced ↦ ok (record { observation = raced; created = false; contradicted = false }, db)
      | none ↦
          if taken (λ (o : Observation). o.id) row.id db.observations
          then err id_taken
          else if not (taken (λ (s : Source). s.id) row.source_id db.sources)
          then err no_source
          else let (clashed, db') =
              link_contradictions row
                (record db { observations = db.observations ++ (row ∷ []) }) in
            ok (
              record {
                observation = if clashed then demoted row.id row else row;
                created = true;
                contradicted = clashed;
              },
              db',
            )
    ]

-- The steps of `put_observation` from the search of the claim, between which and the insert other
-- sessions may commit.
unfoldable pub put_row : Observation → (Db → Db) → Db → Result IntegrityError (PutResult × Db)
put_row row arrive db = elim (find_claim row.claim_hash db.observations) [
  | some existing ↦
      ok (record { observation = existing; created = false; contradicted = false }, db)
  | none ↦ insert_row row (arrive db)
]

abbrev source_for :
    FreshIds
    → Option Source
    → ObservationEnvelope
    → (Db → Db)
    → Db
    → Result IntegrityError (Source × Db)
source_for fresh none e arrive db =
    ensure_source fresh.source_id e.source_name e.source_kind arrive db
source_for fresh (some source) e arrive db = ok (source, db)

abbrev record_pointer :
    FreshIds → Option ObjectPointer → (Db → Db) → Db → Result IntegrityError (Option RawObject × Db)
record_pointer fresh none arrive db = ok (none, db)
record_pointer fresh (some pointer) arrive db = record_raw_object fresh.raw_id pointer arrive db

-- `put_observation`
unfoldable pub put_observation :
    (HashPayload → String)
    → FreshIds
    → (Db → Db)
    → ObservationEnvelope
    → Option Source
    → Option ObjectPointer
    → Db
    → Result IntegrityError (PutResult × Db)
put_observation digest fresh arrive e source pointer db =
    elim (source_for fresh source e arrive db) [
      | err problem ↦ err problem
      | ok (src, db₁) ↦ elim (record_pointer fresh pointer arrive db₁) [
        | err problem ↦ err problem
        | ok (recorded, db₂) ↦
            put_row (row_of digest fresh.observation_id src e (raw_of e pointer recorded)) arrive
              db₂
      ]
    ]
