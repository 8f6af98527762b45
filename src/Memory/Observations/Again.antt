-- ===== src/Memory/Observations/Again.antt =====
-- A second put of an envelope finds the row of the first one.
use market_memory.Prelude.{
  Bool, false, Option, none, some, List, [], ◌∷◌, ◌++◌, map, String, str_eq, if◌then◌else◌, ◌≡◌,
  refl, arith, eq_iff, inl, inr, Bool-cases, Option-cases, ◌∙◌, ap, sym, ok,
}
use mathlib.Core.Option.{some_inj}
use market_memory.Prelude.Members.{Memᴰ}
use market_memory.Memory.Rows.{
  SourceKind, HashPayload, ObservationEnvelope, Source, ObjectPointer, FreshIds, PutResult,
  Observation, Db, find_claim, taken, find_source, find_raw, RawObject,
}
use market_memory.Memory.Observations.{
  put_row, row_of, raw_of, put_observation, ensure_source, record_raw_object, source_for,
  record_pointer, demoted,
}
use market_memory.Memory.Observations.Linked.{link_contradictions-IsLinked, SameTables}
use market_memory.Memory.Observations.Put.{
  Kept, added, insert_row-cases, put_row-cases, put_observation-IsPut,
}

find_claim-map :
    (claim : String) (f : Observation → Observation) (rows : List Observation)
    → ((o : Observation) → (f o).claim_hash ≡ o.claim_hash)
    → {o : Observation} → find_claim claim rows ≡ some o
    → find_claim claim (map f rows) ≡ some (f o)
unfolding find_claim
find_claim-map claim f [] k h = ground arith
find_claim-map claim f (p ∷ rows) k h = elim (Bool-cases (str_eq p.claim_hash claim)) [
  | inl e ↦ simp (k p, e) (ap (λ x. some (f x)) (some_inj.0 (rw e at h)))
  | inr e ↦ simp (k p, e) (find_claim-map claim f rows k (rw e at h))
]

find_claim-append :
    (row : Observation) (rows : List Observation)
    → find_claim row.claim_hash rows ≡ none
    → find_claim row.claim_hash (rows ++ row ∷ []) ≡ some row
unfolding find_claim
find_claim-append row [] h = ground (arith, eq_iff row.claim_hash row.claim_hash)
find_claim-append row (o ∷ rows) h = ground (arith, find_claim-append row rows)

find_claim_mem :
    (claim : String) (rows : List Observation) {o : Observation}
    → find_claim claim rows ≡ some o
    → Memᴰ o rows × (o.claim_hash ≡ claim)
unfolding find_claim
find_claim_mem claim [] h = absurd (ground arith)
find_claim_mem claim (p ∷ rows) h = elim (Bool-cases (str_eq p.claim_hash claim)) [
  | inl e ↦ (Memᴰ.head (sym (some_inj.0 (rw e at h))), ground (arith, eq_iff p.claim_hash claim))
  | inr e ↦ let (m, c) = find_claim_mem claim rows (rw e at h) in (Memᴰ.tail m, c)
]

demoted-id : (c : Bool) (row : Observation) → (if c then demoted row.id row else row).id ≡ row.id
demoted-id c row = ground arith

-- The row of a put is found by its claim in the database that is left.
module _ (row : Observation) (db : Db) (res : PutResult) (db' : Db) where
  found_again :
      put_row row (λ d. d) db ≡ ok (res, db')
      → (o : Observation) × (find_claim row.claim_hash db'.observations ≡ some o)
        × (o.id ≡ res.observation.id)
        × SameTables db db'
  found_again h = elim (put_row-cases row (λ d. d) db res db' h) [
    | inl k ↦ kept k
    | inr (n, q) ↦ elim (insert_row-cases row db res db' q) [
      | inl k ↦ kept k
      | inr (n, t, e, r) ↦
          let l = link_contradictions-IsLinked row (added row db) in
          let found =
            find_claim-map row.claim_hash l.change (added row db).observations
              (λ o. (l.keeps o).claim) (find_claim-append row db.observations n) in
          (
            l.change row,
            rw (e, l.rows) found,
            (l.keeps row).id ∙ sym (ap (λ (x : PutResult). x.observation.id) r ∙ demoted-id _ row),
            rw e l.tables,
          )
    ]
  ]
    where
      kept :
          Kept row db res db'
          → (o : Observation) × (find_claim row.claim_hash db'.observations ≡ some o)
            × (o.id ≡ res.observation.id)
            × SameTables db db'
      kept (f, e, _) = (res.observation, rw e f, refl, rw e (refl, refl))

find_source-append :
    (s : Source) (rows : List Source)
    → find_source s.name rows ≡ none
    → find_source s.name (rows ++ s ∷ []) ≡ some s
unfolding find_source
find_source-append s [] h = ground (arith, eq_iff s.name s.name)
find_source-append s (o ∷ rows) h = ground (arith, find_source-append s rows)

ensure_source-found :
    (id name : String) (kind : SourceKind) (arrive : Db → Db) (db : Db) {s : Source} {db₁ : Db}
    → ensure_source id name kind arrive db ≡ ok (s, db₁)
    → find_source name db₁.sources ≡ some s
unfolding ensure_source
ensure_source-found id name kind arrive db h = elim (Option-cases (find_source name db.sources)) [
  | inr (o, n) ↦ ground arith
  | inl n ↦ elim (Bool-cases (taken (λ (s : Source). s.id) id (arrive db).sources)) [
    | inl t ↦ ground arith
    | inr t ↦ elim (Option-cases (find_source name (arrive db).sources)) [
      | inr (o, m) ↦ ground arith
      | inl m ↦ ground (
        arith,
        find_source-append (record { id = id; name = name; kind = kind }) (arrive db).sources,
      )
    ]
  ]
]

ensure_source-at :
    (id name : String) (kind : SourceKind) (arrive : Db → Db) (db : Db) {s : Source}
    → find_source name db.sources ≡ some s
    → ensure_source id name kind arrive db ≡ ok (s, db)
unfolding ensure_source
ensure_source-at id name kind arrive db h = rw (h, ensure_source)

pub record_pointer-sources :
    (fresh : FreshIds) (pointer : Option ObjectPointer) (db : Db) {o : Option RawObject} {db₁ : Db}
    → record_pointer fresh pointer (λ d. d) db ≡ ok (o, db₁)
    → db₁.sources ≡ db.sources
unfolding record_raw_object
record_pointer-sources fresh none db h = ground arith
record_pointer-sources fresh (some p) db h =
    elim (Option-cases (find_raw p.bucket p.key db.raw_objects)) [
      | inr (o, n) ↦ ground arith
      | inl n ↦ elim (Bool-cases (taken (λ (o : RawObject). o.id) fresh.raw_id db.raw_objects)) [
        | inl t ↦ ground arith
        | inr t ↦ ground arith
      ]
    ]

pub row_of-claim :
    (digest : HashPayload → String) (id : String) (s : Source) (e : ObservationEnvelope)
    (raw : Option String × Option String)
    → (row_of digest id s e raw).claim_hash ≡ e.claim_hash
unfolding row_of
row_of-claim digest id s e (a, b) = refl

put_row-at :
    (row : Observation) (arrive : Db → Db) (db : Db) {o : Observation}
    → find_claim row.claim_hash db.observations ≡ some o
    → put_row row arrive db
      ≡ ok (record { observation = o; created = false; contradicted = false }, db)
unfolding put_row
put_row-at row arrive db h = rw (h, put_row)

find_raw-append :
    (o : RawObject) (rows : List RawObject)
    → find_raw o.pointer.bucket o.pointer.key rows ≡ none
    → find_raw o.pointer.bucket o.pointer.key (rows ++ o ∷ []) ≡ some o
unfolding find_raw
find_raw-append o [] h =
    ground (arith, eq_iff o.pointer.bucket o.pointer.bucket, eq_iff o.pointer.key o.pointer.key)
find_raw-append o (p ∷ rows) h = ground (arith, find_raw-append o rows)

record_raw-again :
    (id id' : String) (p : ObjectPointer) (arrive : Db → Db) (db db₁ db' : Db)
    {o : Option RawObject}
    → record_raw_object id p (λ d. d) db ≡ ok (o, db₁)
    → db'.raw_objects ≡ db₁.raw_objects
    → record_raw_object id' p arrive db' ≡ ok (o, db')
unfolding record_raw_object
record_raw-again id id' p arrive db db₁ db' h same =
    elim (Option-cases (find_raw p.bucket p.key db.raw_objects)) [
      | inr (o, n) ↦ ground arith
      | inl n ↦ elim (Bool-cases (taken (λ (o : RawObject). o.id) id db.raw_objects)) [
        | inl t ↦ ground arith
        | inr t ↦ ground (arith, find_raw-append (record { id = id; pointer = p }) db.raw_objects)
      ]
    ]

-- The searches of the second put.
source_again :
    (fresh fresh' : FreshIds) (source : Option Source) (e : ObservationEnvelope)
    (arrive arrive' : Db → Db) (db db₁ db' : Db) {s : Source}
    → source_for fresh source e arrive db ≡ ok (s, db₁)
    → db'.sources ≡ db₁.sources
    → source_for fresh' source e arrive' db' ≡ ok (s, db')
source_again fresh fresh' none e arrive arrive' db db₁ db' h same =
    ensure_source-at fresh'.source_id e.source_name e.source_kind arrive' db' (
      ap (find_source e.source_name) same
      ∙ ensure_source-found fresh.source_id e.source_name e.source_kind arrive db h)
source_again fresh fresh' (some src) e arrive arrive' db db₁ db' h same = ground arith

raw_again :
    (fresh fresh' : FreshIds) (pointer : Option ObjectPointer) (arrive : Db → Db) (db db₁ db' : Db)
    {o : Option RawObject}
    → record_pointer fresh pointer (λ d. d) db ≡ ok (o, db₁)
    → db'.raw_objects ≡ db₁.raw_objects
    → record_pointer fresh' pointer arrive db' ≡ ok (o, db')
raw_again fresh fresh' none arrive db db₁ db' h same = ground arith
raw_again fresh fresh' (some p) arrive db db₁ db' h same =
    record_raw-again fresh.raw_id fresh'.raw_id p arrive db db₁ db' h same

module _ (digest : HashPayload → String) (fresh fresh' : FreshIds) (arrive : Db → Db)
    (e : ObservationEnvelope) (source : Option Source) (pointer : Option ObjectPointer) (db : Db)
    {res : PutResult} {db' : Db} where
  -- If put_observation returns and no other session commits in its course, then putting the same
  -- envelope with the same source and pointer again, whatever the ids that are drawn and the other
  -- sessions, creates no row and changes nothing: it returns the row with the claim of the
  -- envelope, which has the id that the first put returned.
  pub put_again :
      put_observation digest fresh (λ d. d) e source pointer db ≡ ok (res, db')
      → (o : Observation) × (put_observation digest fresh' arrive e source pointer db'
          ≡ ok (record { observation = o; created = false; contradicted = false }, db'))
        × Memᴰ o db'.observations
        × (o.claim_hash ≡ e.claim_hash)
        × (o.id ≡ res.observation.id)
  unfolding put_observation
  put_again h =
      let p = put_observation-IsPut digest fresh (λ d. d) e source pointer db h in
      let raw = raw_of e pointer p.recorded in
      let row = row_of digest fresh.observation_id p.src e raw in
      let row' = row_of digest fresh'.observation_id p.src e raw in
      let (o, f, i, (sources, raws)) = found_again row p.db₂ res db' p.placed in
      let claim = row_of-claim digest fresh.observation_id p.src e raw in
      let claim' = row_of-claim digest fresh'.observation_id p.src e raw in
      let (m, c) = find_claim_mem row.claim_hash db'.observations f in
      let first =
        source_again fresh fresh' source e (λ d. d) arrive db p.db₁ db' p.sourced
          (sources ∙ record_pointer-sources fresh pointer p.db₁ p.pointed) in
      let second = raw_again fresh fresh' pointer arrive p.db₁ p.db₂ db' p.pointed raws in
      (
        o,
        rw (first, second, put_observation)
            (put_row-at row' arrive db' (rw claim' (rw claim at f))),
        m,
        c ∙ claim,
        i,
      )
