-- ===== src/Memory/Observations/Laws.antt =====
-- The rows stay distinct in their claims, settled and linked.
use market_memory.Prelude.{
  Distinct, true, false, none, List, [], ◌∷◌, ◌++◌, map, String, str_eq, ◌≡◌, ◌≢◌, refl, arith,
  eq_iff, inl, inr, Bool-cases, ◌∙◌, ap, sym, text_in,
}
use market_memory.Prelude.Members.{Memᴰ, added_cases}
use market_memory.Prelude.Members.Memᴰ
use mathlib.Core.Path.{fun_ext}
use mathlib.Core.List.{map-map, map-append}
use market_memory.Memory.Rows.{
  Observation, Db, is_ok, is_rejected, DataQuality, rejected, find_claim, taken,
}
use market_memory.Memory.Observations.{is_other}
use market_memory.Memory.Observations.Demotion.{Keeps}
use market_memory.Memory.Observations.Linking.{contradiction}
use market_memory.Memory.Observations.Linked.{IsLinked}

abbrev pub claims : List Observation → List String
claims rows = map (λ o. o.claim_hash) rows

abbrev pub Clash : Observation → Observation → Type 0
Clash a b = (a.identity_hash ≡ b.identity_hash) × (a.claim_hash ≢ b.claim_hash)

-- One row has a claim. The knowledge time of a row is its ingest. Of two rows of one slot with
-- different claims, of which the second is not rejected, the first is not OK; and if neither is
-- rejected, a link says that the first contradicts the second.
pub record IsValid (db : Db) : Type 0 where
  pub distinct : Distinct (claims db.observations)
  pub known : (o : Observation) → Memᴰ o db.observations → o.as_of_knowledge ≡ o.ingested_at
  pub settled :
      (a b : Observation)
      → Memᴰ a db.observations
      → Memᴰ b db.observations
      → Clash a b
      → is_rejected b.data_quality ≡ false
      → is_ok a.data_quality ≡ false
  pub linked :
      (a b : Observation)
      → Memᴰ a db.observations
      → Memᴰ b db.observations
      → Clash a b
      → is_rejected a.data_quality ≡ false
      → is_rejected b.data_quality ≡ false
      → Memᴰ (contradiction a.id b.id) db.links

text_in-append :
    (x c : String) (xs : List String)
    → text_in x xs ≡ false
    → str_eq x c ≡ false
    → text_in x (xs ++ c ∷ []) ≡ false
text_in-append x c [] h n = ground arith
text_in-append x c (y ∷ xs) h n = ground (arith, text_in-append x c xs)

Distinct-append :
    (c : String) (xs : List String) → text_in c xs ≡ false → Distinct xs → Distinct (xs ++ c ∷ [])
Distinct-append c [] n d = (refl, tt)
Distinct-append c (x ∷ xs) n d = (
  text_in-append x c xs d.0 (ground (arith, eq_iff c x, eq_iff x c)),
  Distinct-append c xs (ground arith) d.1,
)

unclaimed :
    (c : String) (rows : List Observation)
    → find_claim c rows ≡ none
    → text_in c (claims rows) ≡ false
unfolding find_claim
unclaimed c [] h = refl
unclaimed c (o ∷ rows) h =
    ground (arith, eq_iff c o.claim_hash, eq_iff o.claim_hash c, unclaimed c rows)

unclaimed_mem :
    (c : String) (rows : List Observation) {o : Observation}
    → find_claim c rows ≡ none
    → Memᴰ o rows
    → o.claim_hash ≢ c
unfolding find_claim
unclaimed_mem c [] h m = absurd (Memᴰ.not-nil m)
unclaimed_mem c (p ∷ rows) h (Memᴰ.head e) = λ same. ground (arith, eq_iff p.claim_hash c)
unclaimed_mem c (p ∷ rows) h (Memᴰ.tail m) =
    unclaimed_mem c rows (ground (arith, eq_iff p.claim_hash c)) m

untaken_mem :
    (id : String) (rows : List Observation) {o : Observation}
    → taken (λ (o : Observation). o.id) id rows ≡ false
    → Memᴰ o rows
    → str_eq o.id id ≡ false
unfolding taken
untaken_mem id [] h m = absurd (Memᴰ.not-nil m)
untaken_mem id (p ∷ rows) h (Memᴰ.head e) = rw e (ground arith)
untaken_mem id (p ∷ rows) h (Memᴰ.tail m) = untaken_mem id rows (ground arith) m

is_other_of :
    (row o : Observation)
    → str_eq o.id row.id ≡ false
    → Clash o row
    → is_rejected o.data_quality ≡ false
    → is_other row o ≡ true
is_other_of row o n c r =
    ground
      (arith, eq_iff o.identity_hash row.identity_hash, eq_iff o.claim_hash row.claim_hash, c.1)

Clash-sym : (a b : Observation) → Clash a b → Clash b a
Clash-sym a b (i, c) = (sym i, λ e. c (sym e))

Clash-kept : {a a' b b' : Observation} → Keeps a a' → Keeps b b' → Clash a' b' → Clash a b
Clash-kept k l (i, c) = (sym k.identity ∙ i ∙ l.identity, λ e. c (k.claim ∙ e ∙ sym l.claim))

not_ok_of_rejected : (q : DataQuality) → is_rejected q ≡ true → is_ok q ≡ false
not_ok_of_rejected rejected h = refl
not_ok_of_rejected q h = ground arith

module _ (row : Observation) (db db' : Db) (v : IsValid db)
    (l : IsLinked row (record db { observations = db.observations ++ (row ∷ []) }) db')
    (fresh : taken (λ (o : Observation). o.id) row.id db.observations ≡ false)
    (unseen : find_claim row.claim_hash db.observations ≡ none)
    (timely : row.as_of_knowledge ≡ row.ingested_at) where
  -- A row that is left is a changed one of before, or the changed new row.
  from_before :
      {a : Observation}
      → Memᴰ a db'.observations
      → (o : Observation) × Memᴰ o (db.observations ++ (row ∷ [])) × (l.change o ≡ a)
  from_before m = Memᴰ.of_map l.change (db.observations ++ (row ∷ [])) (rw l.rows at m)

  claims_kept : claims db'.observations ≡ claims db.observations ++ row.claim_hash ∷ []
  claims_kept =
      ap claims l.rows
      ∙ map-map (λ (o : Observation). o.claim_hash) l.change (db.observations ++ (row ∷ []))
      ∙ ap (λ f. map f (db.observations ++ (row ∷ []))) (fun_ext (λ o. (l.keeps o).claim))
      ∙ map-append (λ (o : Observation). o.claim_hash) db.observations (row ∷ [])

  is_before :
      {o : Observation}
      → Memᴰ o db.observations
      → Clash o row
      → is_rejected o.data_quality ≡ false
      → is_other row o ≡ true
  is_before {o} m c r = is_other_of row o (untaken_mem row.id db.observations fresh m) c r

  old : {o : Observation} → Memᴰ o db.observations → Memᴰ o (db.observations ++ (row ∷ []))
  old m = Memᴰ.append_left (row ∷ []) m

  settled_before :
      (a b : Observation)
      → Memᴰ a (db.observations ++ (row ∷ []))
      → Memᴰ b (db.observations ++ (row ∷ []))
      → Clash a b
      → is_rejected b.data_quality ≡ false
      → is_ok (l.change a).data_quality ≡ false
  settled_before a b m n c r = elim (added_cases db.observations m) [
    | inl m' ↦ elim (added_cases db.observations n) [
      | inl n' ↦ (l.keeps a).lowered (v.settled a b m' n' c r)
      | inr e ↦ elim (Bool-cases (is_rejected a.data_quality)) [
        | inl h ↦ (l.keeps a).lowered (not_ok_of_rejected a.data_quality h)
        | inr h ↦ l.lowers a (old m') (is_before m' (rw e at c) h) (inl refl)
      ]
    ]
    | inr e ↦ elim (added_cases db.observations n) [
      | inl n' ↦
          l.lowers a (old n') (is_before n' (Clash-sym row b (rw e at c)) r)
            (inr (ap (λ o. o.id) e))
      | inr e' ↦ absurd (c.1 (ap (λ o. o.claim_hash) (e ∙ sym e')))
    ]
  ]

  linked_before :
      (a b : Observation)
      → Memᴰ a (db.observations ++ (row ∷ []))
      → Memᴰ b (db.observations ++ (row ∷ []))
      → Clash a b
      → is_rejected a.data_quality ≡ false
      → is_rejected b.data_quality ≡ false
      → Memᴰ (contradiction a.id b.id) db'.links
  linked_before a b m n c q r = elim (added_cases db.observations m) [
    | inl m' ↦ elim (added_cases db.observations n) [
      | inl n' ↦ l.grows (v.linked a b m' n' c q r)
      | inr e ↦ rw e (l.made (old m') (is_before m' (rw e at c) q)).1
    ]
    | inr e ↦ elim (added_cases db.observations n) [
      | inl n' ↦ rw e (l.made (old n') (is_before n' (Clash-sym row b (rw e at c)) r)).0
      | inr e' ↦ absurd (c.1 (ap (λ o. o.claim_hash) (e ∙ sym e')))
    ]
  ]

  known_before :
      (a : Observation) → Memᴰ a (db.observations ++ (row ∷ [])) → a.as_of_knowledge ≡ a.ingested_at
  known_before a m = elim (added_cases db.observations m) [
    | inl m' ↦ v.known a m'
    | inr e ↦ rw e timely
  ]

  pub inserted-IsValid : IsValid db'
  inserted-IsValid = record {
    distinct = rw claims_kept (
        Distinct-append row.claim_hash (claims db.observations)
          (unclaimed row.claim_hash db.observations unseen) v.distinct);
    known = λ a m.
        let (o, m', e) = from_before m in
        rw (← e) ((l.keeps o).known ∙ known_before o m' ∙ sym (l.keeps o).ingested);
    settled = λ a b m n c r.
        let (o, m', e) = from_before m in
        let (p, n', f) = from_before n in
        rw (← e) (
          settled_before o p m' n' (Clash-kept (l.keeps o) (l.keeps p) (rw (e, f) c))
            (sym (l.keeps p).refusal ∙ rw f r));
    linked = λ a b m n c q r.
        let (o, m', e) = from_before m in
        let (p, n', f) = from_before n in
        let link =
          linked_before o p m' n' (Clash-kept (l.keeps o) (l.keeps p) (rw (e, f) c))
            (sym (l.keeps o).refusal ∙ rw e q) (sym (l.keeps p).refusal ∙ rw f r) in
        rw (← e, ← f) (rw (← (l.keeps o).id, ← (l.keeps p).id) at link);
  }
