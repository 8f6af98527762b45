-- ===== src/Memory/Observations/Linked.antt =====
-- What _link_contradictions leaves as a whole.
use market_memory.Memory.Observations.Linking.{
  link_others_made, link_others_grows, contradiction, others_of_mem,
}
use market_memory.Memory.Observations.Demotion.{
  demoted_not_ok, demoted_by_not_ok, demoted-Keeps, demoted_by-Keeps, Keeps-trans,
  link_others-observations, demoted_by, Keeps-refl, Keeps,
}
use market_memory.Prelude.{
  ◌⊎◌, true, false, List, [], ◌∷◌, map, String, ◌≡◌, refl, arith, inl, inr, List-cases, ◌∙◌, ap,
  sym,
}
use market_memory.Prelude.Members.{Memᴰ}
use market_memory.Prelude.Members.Memᴰ
use mathlib.Core.List.{map-id, map-map}
use market_memory.Memory.Rows.{Observation, Link, Db, is_ok, contradicts, Relation}
use market_memory.Memory.Observations.{
  link, demoted, demote, is_other, others_of, link_others, link_contradictions,
}

-- Nothing is done to the other tables.
abbrev pub SameTables : Db → Db → Type 0
SameTables d d' = (d'.sources ≡ d.sources) × (d'.raw_objects ≡ d.raw_objects)

link-SameTables : (from to : String) (r : Relation) (db : Db) → SameTables db (link from to r db).1
unfolding link
link-SameTables from to r db = (ground arith, ground arith)

link_others-SameTables :
    (row : Observation) (others : List Observation) (db : Db)
    → SameTables db (link_others row others db)
unfolding link_others demote
link_others-SameTables row [] db = (refl, refl)
link_others-SameTables row (o ∷ others) db =
    let d = (link row.id o.id contradicts db).1 in
    let first = link-SameTables row.id o.id contradicts db in
    let second = link-SameTables o.id row.id contradicts d in
    let rest = link_others-SameTables row others (demote o.id (link o.id row.id contradicts d).1) in
    (rest.0 ∙ second.0 ∙ first.0, rest.1 ∙ second.1 ∙ first.1)

-- What _link_contradictions leaves of the rows and the links.
pub record IsLinked (row : Observation) (db db' : Db) : Type 0 where
  pub tables : SameTables db db'
  pub change : Observation → Observation
  pub rows : db'.observations ≡ map change db.observations
  pub keeps : (o : Observation) → Keeps o (change o)
  pub lowers :
      {x : Observation} (o : Observation)
      → Memᴰ x db.observations
      → is_other row x ≡ true
      → (o.id ≡ x.id) ⊎ (o.id ≡ row.id)
      → is_ok (change o).data_quality ≡ false
  pub grows : {l : Link} → Memᴰ l db.links → Memᴰ l db'.links
  pub made :
      {x : Observation}
      → Memᴰ x db.observations
      → is_other row x ≡ true
      → Memᴰ (contradiction row.id x.id) db'.links × Memᴰ (contradiction x.id row.id) db'.links

no_others :
    (row : Observation) (rows : List Observation) {x : Observation}
    → others_of row rows ≡ []
    → Memᴰ x rows
    → is_other row x ≡ true
    → ⊥
no_others row rows e m h = Memᴰ.not-nil (rw e at (others_of_mem row rows m h))

-- The same where there are others.
after :
    (row : Observation) (db : Db) (others : List Observation)
    → others_of row db.observations ≡ others
    → IsLinked row db (demote row.id (link_others row others db))
unfolding demote
after row db others e = record {
  tables = link_others-SameTables row others db;
  change = λ o. demoted row.id (demoted_by others o);
  rows =
      ap (map (demoted row.id)) (link_others-observations row others db)
      ∙ map-map (demoted row.id) (demoted_by others) db.observations;
  keeps = λ o. Keeps-trans (demoted_by-Keeps others o) (demoted-Keeps row.id (demoted_by others o));
  lowers = λ o m h i. elim i [
    | inl e' ↦
        (demoted-Keeps row.id (demoted_by others o)).lowered
          (demoted_by_not_ok others o (among m h) e')
    | inr e' ↦ demoted_not_ok row.id (demoted_by others o) ((demoted_by-Keeps others o).id ∙ e')
  ];
  grows = link_others_grows row others db;
  made = λ {x} m h. link_others_made row others db (among m h) (ground arith);
}
  where
    among : {x : Observation} → Memᴰ x db.observations → is_other row x ≡ true → Memᴰ x others
    among m h = rw e at (others_of_mem row db.observations m h)

pub link_contradictions-IsLinked :
    (row : Observation) (db : Db) → IsLinked row db (link_contradictions row db).1
unfolding link_contradictions demote
link_contradictions-IsLinked row db = elim (List-cases (others_of row db.observations)) [
  | inl e ↦
      rw (e, link_contradictions)
        (record {
          tables = (refl, refl);
          change = λ o. o;
          rows = sym (map-id db.observations);
          keeps = Keeps-refl;
          lowers = λ o m h i. absurd (no_others row db.observations e m h);
          grows = λ m. m;
          made = λ m h. absurd (no_others row db.observations e m h);
        })
  | inr (o, others, e) ↦ rw (e, link_contradictions) (after row db (o ∷ others) e)
]
