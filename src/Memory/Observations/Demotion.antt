-- ===== src/Memory/Observations/Demotion.antt =====
-- What _link_contradictions changes of the rows: some lose the quality OK.
use market_memory.Prelude.{
  true, false, ◌&&◌, List, [], ◌∷◌, map, String, str_eq, ◌≡◌, refl, arith, eq_iff, inl, inr,
  Bool-cases, ◌∙◌, ap, sym,
}
use market_memory.Prelude.Members.{Memᴰ}
use market_memory.Prelude.Members.Memᴰ
use mathlib.Core.List.{map-id, map-map}
use market_memory.Memory.Rows.{
  Observation, Db, is_ok, is_rejected, DataQuality, ok_quality, contradicted, contradicts, Relation,
}
use market_memory.Memory.Observations.{DataQuality, link, demoted, demote, link_others}

-- What a row keeps when its quality is lowered.
pub record Keeps (o o' : Observation) : Type 0 where
  pub id : o'.id ≡ o.id
  pub claim : o'.claim_hash ≡ o.claim_hash
  pub identity : o'.identity_hash ≡ o.identity_hash
  pub ingested : o'.ingested_at ≡ o.ingested_at
  pub known : o'.as_of_knowledge ≡ o.as_of_knowledge
  pub refusal : is_rejected o'.data_quality ≡ is_rejected o.data_quality
  pub lowered : is_ok o.data_quality ≡ false → is_ok o'.data_quality ≡ false

pub Keeps-refl : (o : Observation) → Keeps o o
Keeps-refl o = record {
  id = refl;
  claim = refl;
  identity = refl;
  ingested = refl;
  known = refl;
  refusal = refl;
  lowered = λ h. h;
}

pub Keeps-trans : {a b c : Observation} → Keeps a b → Keeps b c → Keeps a c
Keeps-trans k l = record {
  id = l.id ∙ k.id;
  claim = l.claim ∙ k.claim;
  identity = l.identity ∙ k.identity;
  ingested = l.ingested ∙ k.ingested;
  known = l.known ∙ k.known;
  refusal = l.refusal ∙ k.refusal;
  lowered = λ h. l.lowered (k.lowered h);
}

not_ok_of_rejected : (q : DataQuality) → is_ok q ≡ true → is_rejected contradicted ≡ is_rejected q
not_ok_of_rejected ok_quality h = refl
not_ok_of_rejected q h = ground arith

-- A row of the id is not OK afterwards, and every row keeps the rest.
pub demoted-Keeps : (id : String) (o : Observation) → Keeps o (demoted id o)
demoted-Keeps id o = elim (Bool-cases (str_eq o.id id && is_ok o.data_quality)) [
  | inl h ↦ rw h (record {
    id = refl;
    claim = refl;
    identity = refl;
    ingested = refl;
    known = refl;
    refusal = not_ok_of_rejected o.data_quality (ground arith);
    lowered = λ h. refl;
  })
  | inr h ↦ rw h (Keeps-refl o)
]

pub demoted_not_ok :
    (id : String) (o : Observation) → o.id ≡ id → is_ok (demoted id o).data_quality ≡ false
demoted_not_ok id o e = elim (Bool-cases (is_ok o.data_quality)) [
  | inl h ↦ ground (arith, eq_iff o.id id)
  | inr h ↦ ground (arith, eq_iff o.id id)
]

pub demoted_by : List Observation → Observation → Observation
demoted_by [] o = o
demoted_by (x ∷ others) o = demoted_by others (demoted x.id o)

pub demoted_by-Keeps : (others : List Observation) (o : Observation) → Keeps o (demoted_by others o)
unfolding demoted_by
demoted_by-Keeps [] o = Keeps-refl o
demoted_by-Keeps (x ∷ others) o =
    Keeps-trans (demoted-Keeps x.id o) (demoted_by-Keeps others (demoted x.id o))

pub demoted_by_not_ok :
    (others : List Observation) {x : Observation} (o : Observation)
    → Memᴰ x others
    → o.id ≡ x.id
    → is_ok (demoted_by others o).data_quality ≡ false
unfolding demoted_by
demoted_by_not_ok [] o m i = absurd (Memᴰ.not-nil m)
demoted_by_not_ok (y ∷ others) o (Memᴰ.head e) i =
    (demoted_by-Keeps others (demoted y.id o)).lowered
      (demoted_not_ok y.id o (i ∙ ap (λ r. r.id) e))
demoted_by_not_ok (y ∷ others) o (Memᴰ.tail m) i =
    demoted_by_not_ok others (demoted y.id o) m ((demoted-Keeps y.id o).id ∙ i)

link-observations :
    (from to : String) (r : Relation) (db : Db)
    → (link from to r db).1.observations ≡ db.observations
unfolding link
link-observations from to r db = ground arith

-- The two links of a pair.
unfoldable pub both : Observation → Observation → Db → Db
both row o db = (link o.id row.id contradicts (link row.id o.id contradicts db).1).1

both-observations : (row o : Observation) (db : Db) → (both row o db).observations ≡ db.observations
unfolding both
both-observations row o db =
    link-observations o.id row.id contradicts (link row.id o.id contradicts db).1
    ∙ link-observations row.id o.id contradicts db

-- The rows after the loop.
pub link_others-observations :
    (row : Observation) (others : List Observation) (db : Db)
    → (link_others row others db).observations ≡ map (demoted_by others) db.observations
unfolding link_others demoted_by demote both
link_others-observations row [] db = sym (map-id db.observations)
link_others-observations row (o ∷ others) db =
    link_others-observations row others (demote o.id (both row o db))
    ∙ ap (λ rows. map (demoted_by others) (map (demoted o.id) rows)) (both-observations row o db)
    ∙ map-map (demoted_by others) (demoted o.id) db.observations
