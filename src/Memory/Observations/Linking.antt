-- ===== src/Memory/Observations/Linking.antt =====
-- The links that _link_contradictions adds.
use market_memory.Memory.Observations.Demotion.{both}
use market_memory.Prelude.{
  true, false, List, [], ◌∷◌, String, str_eq, ◌≡◌, refl, arith, eq_iff, inl, inr, Bool-cases, sym,
}
use market_memory.Prelude.Members.{Memᴰ, added_last, kept_tail, kept_head}
use market_memory.Prelude.Members.Memᴰ
use market_memory.Memory.Rows.{
  Observation, Link, Db, relation_eq, contradicts, Relation, supports, duplicate, updates,
}
use market_memory.Memory.Observations.{
  link, has_link, link_eq, demote, is_other, others_of, link_others,
}

-- Links are only added.
link_grows :
    (from to : String) (r : Relation) (db : Db) {l : Link}
    → Memᴰ l db.links
    → Memᴰ l (link from to r db).1.links
unfolding link
link_grows from to r db m = elim (Bool-cases (str_eq from to)) [
  | inl e ↦ rw e m
  | inr e ↦
      elim (Bool-cases (
        has_link (record { observation_id = from; related_observation_id = to; relation = r })
          db.links)) [ inl h ↦ rw (e, h) m | inr h ↦ rw (e, h) (Memᴰ.append_left _ m) ]
]

relation_eq→eq : (a b : Relation) → relation_eq a b ≡ true → a ≡ b
relation_eq→eq supports supports h = refl
relation_eq→eq contradicts contradicts h = refl
relation_eq→eq duplicate duplicate h = refl
relation_eq→eq updates updates h = refl
relation_eq→eq _ _ h = ground arith

link_eq→eq : (k l : Link) → link_eq k l ≡ true → k ≡ l
link_eq→eq k l h = ground (
  arith,
  eq_iff k.observation_id l.observation_id,
  eq_iff k.related_observation_id l.related_observation_id,
  relation_eq→eq k.relation l.relation,
)

has_link→Mem : (l : Link) (links : List Link) → has_link l links ≡ true → Memᴰ l links
unfolding has_link
has_link→Mem l [] h = absurd (ground arith)
has_link→Mem l (k ∷ links) h = elim (Bool-cases (link_eq k l)) [
  | inl e ↦ Memᴰ.head (sym (link_eq→eq k l e))
  | inr e ↦ Memᴰ.tail (has_link→Mem l links (ground arith))
]

-- The link of two ids that differ is there afterwards.
link_made :
    (from to : String) (r : Relation) (db : Db)
    → str_eq from to ≡ false
    → Memᴰ
        (record { observation_id = from; related_observation_id = to; relation = r })
        (link from to r db).1.links
unfolding link
link_made from to r db n =
    elim (Bool-cases (
      has_link (record { observation_id = from; related_observation_id = to; relation = r })
        db.links)) [
          | inl h ↦ rw (n, h) (has_link→Mem _ _ h)
          | inr h ↦ rw (n, h) (added_last db.links refl)
        ]

abbrev pub contradiction : String → String → Link
contradiction from to = record {
  observation_id = from;
  related_observation_id = to;
  relation = contradicts;
}

both_grows :
    (row o : Observation) (db : Db) {l : Link} → Memᴰ l db.links → Memᴰ l (both row o db).links
unfolding both
both_grows row o db m =
    link_grows o.id row.id contradicts _ (link_grows row.id o.id contradicts db m)

both_made :
    (row o : Observation) (db : Db)
    → str_eq o.id row.id ≡ false
    → Memᴰ (contradiction row.id o.id) (both row o db).links
      × Memᴰ (contradiction o.id row.id) (both row o db).links
unfolding both
both_made row o db n = (
  link_grows o.id row.id contradicts _ (link_made row.id o.id contradicts db differ),
  link_made o.id row.id contradicts _ n,
)
  where
    differ : str_eq row.id o.id ≡ false
    differ = ground (arith, eq_iff row.id o.id, eq_iff o.id row.id)

pub link_others_grows :
    (row : Observation) (others : List Observation) (db : Db) {l : Link}
    → Memᴰ l db.links
    → Memᴰ l (link_others row others db).links
unfolding link_others demote both
link_others_grows row [] db m = m
link_others_grows row (o ∷ others) db m =
    link_others_grows row others (demote o.id (both row o db)) (both_grows row o db m)

pub link_others_made :
    (row : Observation) (others : List Observation) (db : Db) {x : Observation}
    → Memᴰ x others
    → str_eq x.id row.id ≡ false
    → Memᴰ (contradiction row.id x.id) (link_others row others db).links
      × Memᴰ (contradiction x.id row.id) (link_others row others db).links
unfolding link_others demote both
link_others_made row [] db m n = absurd (Memᴰ.not-nil m)
link_others_made row (o ∷ others) db (Memᴰ.head e) n = rw e (
  link_others_grows row others (demote o.id (both row o db)) pair.0,
  link_others_grows row others (demote o.id (both row o db)) pair.1,
)
  where
    pair :
        Memᴰ (contradiction row.id o.id) (both row o db).links
        × Memᴰ (contradiction o.id row.id) (both row o db).links
    pair = both_made row o db (rw e at n)
link_others_made row (o ∷ others) db (Memᴰ.tail m) n =
    link_others_made row others (demote o.id (both row o db)) m n

pub others_of_mem :
    (row : Observation) (rows : List Observation) {x : Observation}
    → Memᴰ x rows
    → is_other row x ≡ true
    → Memᴰ x (others_of row rows)
unfolding others_of
others_of_mem row [] m h = absurd (Memᴰ.not-nil m)
others_of_mem row (o ∷ rows) (Memᴰ.head e) h = kept_head (is_other row o) _ (rw (← e) h) e
others_of_mem row (o ∷ rows) (Memᴰ.tail m) h =
    kept_tail (is_other row o) o (others_of_mem row rows m h)
