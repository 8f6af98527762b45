-- ===== src/Memory/Observations/Put.antt =====
-- What put_observation guarantees as a whole.
use market_memory.Prelude.{
  leb, str_eq, true, false, Option, none, some, [], ◌∷◌, ◌++◌, String, if◌then◌else◌, ◌≡◌, refl,
  arith, inl, inr, Bool-cases, Option-cases, Result-cases, ok, ◌⊎◌,
}
use market_memory.Memory.Rows.{
  SourceKind, HashPayload, ObservationEnvelope, Source, ObjectPointer, FreshIds, PutResult,
  Observation, Db, find_claim, taken, find_source, find_raw, RawObject,
}
use market_memory.Memory.Observations.{
  link_contradictions, insert_row, put_row, row_of, raw_of, put_observation, ensure_source,
  record_raw_object, source_for, record_pointer, demoted,
}
use market_memory.Memory.Observations.Linked.{link_contradictions-IsLinked}
use market_memory.Memory.Observations.Laws.{IsValid, inserted-IsValid}

-- The rows and links are those of before.
abbrev pub SameRows : Db → Db → Type 0
SameRows d d' = (d'.observations ≡ d.observations) × (d'.links ≡ d.links)

IsValid-same : (d d' : Db) → SameRows d d' → IsValid d → IsValid d'
IsValid-same d d' (rows, links) v = record {
  distinct = rw rows v.distinct;
  known = λ o m. v.known o (rw rows at m);
  settled = λ a b m n. v.settled a b (rw rows at m) (rw rows at n);
  linked = λ a b m n c q r. rw links (v.linked a b (rw rows at m) (rw rows at n) c q r);
}

-- A step that writes another table leaves the rows of before, or those of the other sessions.
abbrev pub Left : (Db → Db) → Db → Db → Type 0
Left arrive db db' = SameRows db db' ⊎ SameRows (arrive db) db'

ensure_source-Left :
    (id name : String) (kind : SourceKind) (arrive : Db → Db) (db : Db) {s : Source} {db' : Db}
    → ensure_source id name kind arrive db ≡ ok (s, db')
    → Left arrive db db'
unfolding ensure_source
ensure_source-Left id name kind arrive db h = elim (Option-cases (find_source name db.sources)) [
  | inr (o, n) ↦ inl (ground arith, ground arith)
  | inl n ↦ elim (Bool-cases (taken (λ (s : Source). s.id) id (arrive db).sources)) [
    | inl t ↦ absurd (ground arith)
    | inr t ↦ elim (Option-cases (find_source name (arrive db).sources)) [
      | inr (o, m) ↦ absurd (ground arith)
      | inl m ↦ inr (ground arith, ground arith)
    ]
  ]
]

record_raw-Left :
    (id : String) (p : ObjectPointer) (arrive : Db → Db) (db : Db) {o : Option RawObject} {db' : Db}
    → record_raw_object id p arrive db ≡ ok (o, db')
    → Left arrive db db'
unfolding record_raw_object
record_raw-Left id p arrive db h = elim (Option-cases (find_raw p.bucket p.key db.raw_objects)) [
  | inr (o, n) ↦ inl (ground arith, ground arith)
  | inl n ↦ elim (Bool-cases (str_eq p.key "")) [
    | inl b ↦ inl (ground arith, ground arith)
    | inr b ↦ elim (Bool-cases (taken (λ (o : RawObject). o.id) id (arrive db).raw_objects)) [
      | inl t ↦ absurd (ground arith)
      | inr t ↦ elim (Option-cases (find_raw p.bucket p.key (arrive db).raw_objects)) [
        | inr (o, m) ↦ absurd (ground arith)
        | inl m ↦ inr (ground arith, ground arith)
      ]
    ]
  ]
]

pub source_for-Left :
    (fresh : FreshIds) (source : Option Source) (e : ObservationEnvelope) (arrive : Db → Db)
    (db : Db) {s : Source} {db' : Db}
    → source_for fresh source e arrive db ≡ ok (s, db')
    → Left arrive db db'
source_for-Left fresh none e arrive db h =
    ensure_source-Left fresh.source_id e.source_name e.source_kind arrive db h
source_for-Left fresh (some s) e arrive db h = inl (ground arith, ground arith)

pub record_pointer-Left :
    (fresh : FreshIds) (p : Option ObjectPointer) (arrive : Db → Db) (db : Db)
    {o : Option RawObject} {db' : Db}
    → record_pointer fresh p arrive db ≡ ok (o, db')
    → Left arrive db db'
record_pointer-Left fresh none arrive db h = inl (ground arith, ground arith)
record_pointer-Left fresh (some p) arrive db h = record_raw-Left fresh.raw_id p arrive db h

Left-IsValid :
    (arrive : Db → Db) (db db' : Db)
    → ((d : Db) → IsValid d → IsValid (arrive d))
    → Left arrive db db'
    → IsValid db
    → IsValid db'
Left-IsValid arrive db db' keeps l v = elim l [
  | inl same ↦ IsValid-same db db' same v
  | inr same ↦ IsValid-same (arrive db) db' same (keeps db v)
]

row_timely :
    (digest : HashPayload → String) (id : String) (s : Source) (e : ObservationEnvelope)
    (raw : Option String × Option String)
    → let row = row_of digest id s e raw in row.as_of_knowledge ≡ row.ingested_at
unfolding row_of
row_timely digest id s e (a, b) = refl

abbrev pub added : Observation → Db → Db
added row db = record db { observations = db.observations ++ (row ∷ []) }

-- The two ways in which a put returns.
abbrev pub Kept : Observation → Db → PutResult → Db → Type 0
Kept row db res db' =
    (find_claim row.claim_hash db.observations ≡ some res.observation)
    × (db' ≡ db)
    × (res.created ≡ false)

abbrev pub Added : Observation → Db → PutResult → Db → Type 0
Added row db res db' =
    (find_claim row.claim_hash db.observations ≡ none)
    × (taken (λ (o : Observation). o.id) row.id db.observations ≡ false)
    × (db' ≡ (link_contradictions row (added row db)).1)
    × (res ≡ record {
      observation = if (link_contradictions row (added row db)).0 then demoted row.id row else row;
      created = true;
      contradicted = (link_contradictions row (added row db)).0;
    })

pub insert_row-cases :
    (row : Observation) (db : Db) (res : PutResult) (db' : Db)
    → insert_row row db ≡ ok (res, db')
    → Kept row db res db' ⊎ Added row db res db'
unfolding insert_row
insert_row-cases row db res db' h = elim (Bool-cases (leb row.confidence 1000)) [
  | inr c ↦ absurd (ground arith)
  | inl c ↦ elim (Option-cases (find_claim row.claim_hash db.observations)) [
    | inr (o, n) ↦ inl (ground arith, ground arith, ground arith)
    | inl n ↦ elim (Bool-cases (taken (λ (o : Observation). o.id) row.id db.observations)) [
      | inl t ↦ absurd (ground arith)
      | inr t ↦ elim (Bool-cases (taken (λ (s : Source). s.id) row.source_id db.sources)) [
        | inr k ↦ absurd (ground arith)
        | inl k ↦ inr (n, t, ground arith, ground arith)
      ]
    ]
  ]
]

insert_row-IsValid :
    (row : Observation) (db : Db) (res : PutResult) (db' : Db)
    → IsValid db
    → row.as_of_knowledge ≡ row.ingested_at
    → insert_row row db ≡ ok (res, db')
    → IsValid db'
insert_row-IsValid row db res db' v k h = elim (insert_row-cases row db res db' h) [
  | inl (_, same, _) ↦ rw same v
  | inr (n, t, e, _) ↦
      rw e (inserted-IsValid row db _ v (link_contradictions-IsLinked row (added row db)) t n k)
]

pub put_row-cases :
    (row : Observation) (arrive : Db → Db) (db : Db) (res : PutResult) (db' : Db)
    → put_row row arrive db ≡ ok (res, db')
    → Kept row db res db'
      ⊎ ((find_claim row.claim_hash db.observations ≡ none)
          × (insert_row row (arrive db) ≡ ok (res, db')))
unfolding put_row
put_row-cases row arrive db res db' h =
    elim (Option-cases (find_claim row.claim_hash db.observations)) [
      | inr (o, n) ↦ inl (ground arith, ground arith, ground arith)
      | inl n ↦ inr (n, rw (n, put_row) at h)
    ]

-- The steps of a put that returns.
pub record IsPut (digest : HashPayload → String) (fresh : FreshIds) (arrive : Db → Db)
    (e : ObservationEnvelope) (source : Option Source) (pointer : Option ObjectPointer) (db : Db)
    (res : PutResult) (db' : Db) : Type 0 where
  pub src : Source
  pub db₁ : Db
  pub recorded : Option RawObject
  pub db₂ : Db
  pub sourced : source_for fresh source e arrive db ≡ ok (src, db₁)
  pub pointed : record_pointer fresh pointer arrive db₁ ≡ ok (recorded, db₂)
  pub placed :
      put_row (row_of digest fresh.observation_id src e (raw_of e pointer recorded)) arrive db₂
      ≡ ok (res, db')

module _ (digest : HashPayload → String) (fresh : FreshIds) (arrive : Db → Db)
    (e : ObservationEnvelope) (source : Option Source) (pointer : Option ObjectPointer) (db : Db)
    {res : PutResult} {db' : Db} where
  pub put_observation-IsPut :
      put_observation digest fresh arrive e source pointer db ≡ ok (res, db')
      → IsPut digest fresh arrive e source pointer db res db'
  unfolding put_observation
  put_observation-IsPut h = elim (Result-cases (source_for fresh source e arrive db)) [
    | inl (p, q) ↦ absurd (ground arith)
    | inr ((s, d₁), q) ↦ elim (Result-cases (record_pointer fresh pointer arrive d₁)) [
      | inl (p, q') ↦ absurd (ground arith)
      | inr ((o, d₂), q') ↦ record {
        src = s;
        db₁ = d₁;
        recorded = o;
        db₂ = d₂;
        sourced = q;
        pointed = q';
        placed = rw (q, q', put_observation) at h;
      }
    ]
  ]

  -- If the database is valid, what other sessions commit keeps it so, and put_observation returns,
  -- then the database that is left is valid: no two rows have one claim, the knowledge time of
  -- each row is its ingest, a row that a row of its slot contradicts is not OK unless the other is
  -- rejected, and the rows that are not rejected are linked both ways.
  pub put_observation-IsValid :
      IsValid db
      → ((d : Db) → IsValid d → IsValid (arrive d))
      → put_observation digest fresh arrive e source pointer db ≡ ok (res, db')
      → IsValid db'
  put_observation-IsValid v keeps h =
      let p = put_observation-IsPut h in
      let v₁ =
        Left-IsValid arrive db p.db₁ keeps (source_for-Left fresh source e arrive db p.sourced) v in
      let v₂ =
        Left-IsValid arrive p.db₁ p.db₂ keeps
          (record_pointer-Left fresh pointer arrive p.db₁ p.pointed) v₁ in
      elim (put_row-cases _ arrive p.db₂ res db' p.placed) [
        | inl (_, same, _) ↦ rw same v₂
        | inr (_, q) ↦
            insert_row-IsValid _ (arrive p.db₂) res db' (keeps p.db₂ v₂) (row_timely digest _ _ _ _)
              q
      ]
