-- ===== src/Research/Markdown/Laws.antt =====
-- What is set is what is read back.
use market_memory.Prelude.{
  ℕ, zero, suc, ◌≡◌, refl, true, false, Option, none, some, String, strip, norm, arith, ok, [], ◌∷◌,
  Option-cases, inl, inr,
}
use market_memory.Research.Markdown.{
  Document, get_from, get_field, find_field_line, write_line, set_field,
}

get_from-exact :
    (d : Document) (wanted v : String) (hit : Option String) (i : ℕ)
    → find_field_line d wanted true ≡ some i
    → get_from wanted hit (write_line d i v) ≡ some (strip v)
unfolding find_field_line get_from write_line
get_from-exact [] w v hit i h = ground arith
get_from-exact (l ∷ ls) w v hit zero h = ground arith
get_from-exact (l ∷ ls) w v hit (suc i) h =
    ground (arith, get_from-exact ls w v hit i, get_from-exact ls w v (some (strip l.value)) i)

-- With no exact line, a hit that is there is kept.
get_from-kept :
    (d : Document) (wanted v : String)
    → find_field_line d wanted true ≡ none
    → get_from wanted (some v) d ≡ some v
unfolding find_field_line get_from
get_from-kept [] w v h = refl
get_from-kept (l ∷ ls) w v h = ground (arith, get_from-kept ls w v)

get_from-prefix :
    (d : Document) (wanted v : String) (i : ℕ)
    → find_field_line d wanted true ≡ none
    → find_field_line d wanted false ≡ some i
    → get_from wanted none (write_line d i v) ≡ some (strip v)
unfolding find_field_line get_from write_line
get_from-prefix [] w v i h p = ground arith
get_from-prefix (l ∷ ls) w v zero h p = ground (arith, get_from-kept ls w (strip v))
get_from-prefix (l ∷ ls) w v (suc i) h p = ground (arith, get_from-prefix ls w v i)

-- If set_field returns a document, then get_field of the same field in it is the value without
-- surrounding space.
pub get_field-set_field :
    (d : Document) (field v : String) {e : Document}
    → set_field d field v ≡ ok e
    → get_field e field ≡ some (strip v)
unfolding get_field set_field
get_field-set_field d field v h = elim (Option-cases (find_field_line d (norm field) true)) [
  | inr (i, e) ↦ ground (arith, get_from-exact d (norm field) v none i e)
  | inl e ↦ elim (Option-cases (find_field_line d (norm field) false)) [
    | inr (i, p) ↦ ground (arith, get_from-prefix d (norm field) v i e p)
    | inl p ↦ ground arith
  ]
]
