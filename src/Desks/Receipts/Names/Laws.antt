-- ===== src/Desks/Receipts/Names/Laws.antt =====
-- Making a text safe twice is making it safe once.
use market_memory.Prelude.{
  Bool, true, false, ◌&&◌, not, String, ◌≡◌, refl, arith, inl, inr, Bool-cases, ap, ◌∙◌,
}
use market_memory.Desks.Receipts.Names.{
  is_safe, is_mark, sub_from, lstrip_marks, rstrip_marks, safe_id,
}

all_safe : String → Bool
all_safe String.[] = true
all_safe (String.◌∷◌ c s) = is_safe c && all_safe s

underline_safe : is_safe "_" ≡ true
unfolding is_safe
underline_safe = refl

sub_from-safe : (inside : Bool) (s : String) → all_safe (sub_from inside s) ≡ true
unfolding sub_from all_safe
sub_from-safe inside String.[] = refl
sub_from-safe true (String.◌∷◌ c s) = elim (Bool-cases (is_safe c)) [
  | inl h ↦ rw (h, sub_from) (rw h (sub_from-safe false s))
  | inr h ↦ rw (h, sub_from) (sub_from-safe true s)
]
sub_from-safe false (String.◌∷◌ c s) = elim (Bool-cases (is_safe c)) [
  | inl h ↦ rw (h, sub_from) (rw h (sub_from-safe false s))
  | inr h ↦ rw (h, sub_from) (rw underline_safe (sub_from-safe true s))
]

sub_from_of_safe : (s : String) → all_safe s ≡ true → sub_from false s ≡ s
unfolding sub_from all_safe
sub_from_of_safe String.[] h = refl
sub_from_of_safe (String.◌∷◌ c s) h = ground (arith, sub_from_of_safe s)

lstrip-safe : (s : String) → all_safe s ≡ true → all_safe (lstrip_marks s) ≡ true
unfolding lstrip_marks all_safe
lstrip-safe String.[] h = refl
lstrip-safe (String.◌∷◌ c s) h = ground (arith, lstrip-safe s)

rstrip-safe : (s : String) → all_safe s ≡ true → all_safe (rstrip_marks s) ≡ true
unfolding rstrip_marks all_safe
rstrip-safe String.[] h = refl
rstrip-safe (String.◌∷◌ c s) h = ground (arith, rstrip-safe s)

rstrip_idem : (s : String) → rstrip_marks (rstrip_marks s) ≡ rstrip_marks s
unfolding rstrip_marks
rstrip_idem String.[] = refl
rstrip_idem (String.◌∷◌ c s) = ground (arith, rstrip_idem s)

starts_plain : String → Bool
starts_plain String.[] = true
starts_plain (String.◌∷◌ c s) = not (is_mark c)

lstrip-starts_plain : (s : String) → starts_plain (lstrip_marks s) ≡ true
unfolding lstrip_marks starts_plain
lstrip-starts_plain String.[] = refl
lstrip-starts_plain (String.◌∷◌ c s) = ground (arith, lstrip-starts_plain s)

rstrip-starts_plain : (s : String) → starts_plain s ≡ true → starts_plain (rstrip_marks s) ≡ true
unfolding rstrip_marks starts_plain
rstrip-starts_plain String.[] h = refl
rstrip-starts_plain (String.◌∷◌ c s) h = ground arith

lstrip_of_plain : (s : String) → starts_plain s ≡ true → lstrip_marks s ≡ s
unfolding lstrip_marks starts_plain
lstrip_of_plain String.[] h = refl
lstrip_of_plain (String.◌∷◌ c s) h = ground arith

pub safe_id_idem : (s : String) → safe_id (safe_id s) ≡ safe_id s
unfolding safe_id
safe_id_idem s =
    let plain = lstrip_marks (sub_from false s) in
    ap (λ t. rstrip_marks (lstrip_marks t))
      (sub_from_of_safe (rstrip_marks plain)
        (rstrip-safe plain (lstrip-safe (sub_from false s) (sub_from-safe false s))))
    ∙ ap rstrip_marks (
        lstrip_of_plain (rstrip_marks plain)
          (rstrip-starts_plain plain (lstrip-starts_plain (sub_from false s))))
    ∙ rstrip_idem plain
