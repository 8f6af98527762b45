-- ===== src/Memory/Rows.antt =====
-- packages/common/src/mm_common/schemas.py and the tables of packages/memory: the envelope of an
-- observation, the rows and their queries. The database is the rows of its tables in the order in
-- which they were added. The payload is its canonical text,
-- and a confidence is a whole number of thousandths, as Numeric(4, 3) keeps it. Kinds, types of
-- evidence, qualities and relations are constructors, so the checks of their columns hold. The url, the tier and the notes of a source,
-- and the time at which a row was written, are left out.
use market_memory.Prelude.{
  ℕ, Bool, true, false, ◌&&◌, ◌||◌, Option, none, some, List, [], ◌∷◌, String, str_eq,
  if◌then◌else◌, or_default,
}

-- `DataQuality`
pub data DataQuality : Type 0 where
  ok_quality stale partial contradicted rejected : DataQuality

-- `SourceKind`
pub data SourceKind : Type 0 where
  exchange onchain macro news internal : SourceKind

-- `EvidenceType`
pub data EvidenceType : Type 0 where
  fact quote metric_type commentary derived : EvidenceType

-- `ObservationRelation`
pub data Relation : Type 0 where
  supports contradicts duplicate updates : Relation

-- `ClaimIdentity`
pub record ClaimIdentity : Type 0 where
  pub source_name : String
  pub instrument : String
  pub metric : String
  pub market_time : Option ℕ
  pub value : Option String
  pub extras : List (String × String)

-- The dict that is hashed: the value is left out of a slot.
pub record HashPayload : Type 0 where
  pub source_name : String
  pub instrument : String
  pub metric : String
  pub market_time : Option ℕ
  pub value : Option (Option String)
  pub extras : List (String × String)

-- `ClaimIdentity.hash_payload`
unfoldable pub hash_payload : ClaimIdentity → HashPayload
hash_payload c = record {
  source_name = c.source_name;
  instrument = c.instrument;
  metric = c.metric;
  market_time = c.market_time;
  value = some c.value;
  extras = c.extras;
}

-- `ClaimIdentity.slot_payload`
unfoldable pub slot_payload : ClaimIdentity → HashPayload
slot_payload c = record (hash_payload c) { value = none }

-- `ObservationEnvelope`
pub record ObservationEnvelope : Type 0 where
  pub source_name : String
  pub source_kind : SourceKind
  pub source_url_or_id : String
  pub published_at : ℕ
  pub ingested_at : ℕ
  pub market_time : Option ℕ
  pub claim_text : String
  pub claim_hash : String
  pub confidence : ℕ
  pub evidence_type : EvidenceType
  pub data_quality : DataQuality
  pub payload : String
  pub raw_object_key : Option String
  pub raw_object_checksum : Option String
  pub as_of_knowledge : Option ℕ
  pub instrument : String
  pub metric : String
  pub identity : ClaimIdentity

pub record Source : Type 0 where
  pub id : String
  pub name : String
  pub kind : SourceKind

pub record ObjectPointer : Type 0 where
  pub bucket : String
  pub key : String
  pub checksum_sha256 : String
  pub byte_size : ℕ
  pub content_type : String

pub record RawObject : Type 0 where
  pub id : String
  pub pointer : ObjectPointer

pub record Observation : Type 0 where
  pub id : String
  pub source_id : String
  pub source_url_or_id : String
  pub published_at : ℕ
  pub ingested_at : ℕ
  pub market_time : Option ℕ
  pub claim_text : String
  pub claim_hash : String
  pub identity_hash : String
  pub confidence : ℕ
  pub evidence_type : EvidenceType
  pub data_quality : DataQuality
  pub payload_json : String
  pub raw_object_key : Option String
  pub raw_object_checksum : Option String
  pub as_of_knowledge : ℕ
  pub instrument : String
  pub metric : String

pub record Link : Type 0 where
  pub observation_id : String
  pub related_observation_id : String
  pub relation : Relation

pub record Db : Type 0 where
  pub sources : List Source
  pub raw_objects : List RawObject
  pub observations : List Observation
  pub links : List Link

-- The draws of new_ulid, for a source, a raw object and an observation.
pub record FreshIds : Type 0 where
  pub source_id : String
  pub raw_id : String
  pub observation_id : String

-- The constraints of the tables that a row may break: the primary keys, the unique name of a source
-- and the unique key of a raw object, the foreign key on the source and the check of the confidence.
-- Those on the values of enums hold for the values of the enums.
pub data IntegrityError : Type 0 where
  id_taken name_taken key_taken no_source bad_confidence : IntegrityError

pub record PutResult : Type 0 where
  pub observation : Observation
  pub created : Bool
  pub contradicted : Bool

abbrev pub relation_eq : Relation → Relation → Bool
relation_eq supports supports = true
relation_eq contradicts contradicts = true
relation_eq duplicate duplicate = true
relation_eq updates updates = true
relation_eq _ _ = false

abbrev pub is_ok : DataQuality → Bool
is_ok ok_quality = true
is_ok _ = false

abbrev pub is_rejected : DataQuality → Bool
is_rejected rejected = true
is_rejected _ = false

-- `_fill_defaults`: the digest of the claim where none is given, and the knowledge time.
unfoldable pub fill_defaults : (HashPayload → String) → ObservationEnvelope → ObservationEnvelope
fill_defaults digest e = record e {
  claim_hash = or_default e.claim_hash (digest (hash_payload e.identity));
  as_of_knowledge = some e.ingested_at;
}

unfoldable pub find_source : String → List Source → Option Source
find_source name [] = none
find_source name (s ∷ rest) = if str_eq s.name name then some s else find_source name rest

unfoldable pub find_raw : String → String → List RawObject → Option RawObject
find_raw bucket key [] = none
find_raw bucket key (o ∷ rest) =
    if str_eq o.pointer.bucket bucket && str_eq o.pointer.key key
    then some o
    else find_raw bucket key rest

-- `select(Observation).where(Observation.claim_hash == claim_hash)`
unfoldable pub find_claim : String → List Observation → Option Observation
find_claim claim [] = none
find_claim claim (o ∷ rest) = if str_eq o.claim_hash claim then some o else find_claim claim rest

-- Whether an id is among the keys of a table.
unfoldable pub taken {ℓ} : {A : Type ℓ} → (A → String) → String → List A → Bool
taken id_of id [] = false
taken id_of id (x ∷ xs) = str_eq (id_of x) id || taken id_of id xs
