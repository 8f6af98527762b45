-- ===== src/Desks/Scheduler/Index/Laws.antt =====
-- What the index keeps of the completions.
use market_memory.Prelude.{
  ◌∙◌, ap, ◌&&◌, sym, ℕ, suc, Option, none, some, List, [], ◌∷◌, if◌then◌else◌, Bool, true, false,
  ◌≡◌, refl, ◌≤◌, arith, eq_iff, ==_iff, Bool-cases, inl, inr, ◌⊎◌, ◌↔◌,
}
use market_memory.Prelude.Members.{Memᴰ}
use market_memory.Prelude.Members.Memᴰ
use market_memory.Desks.Scheduler.{Completion, Key, key_eq, key_of, rank}
use market_memory.Desks.Scheduler.Index.{
  Index, Windows, get, set, is_better, index_row, index_rows, index_completions,
}

pub key_eq_iff : (k l : Key) → (key_eq k l ≡ true) ↔ (k ≡ l)
key_eq_iff (r, a) (s, b) = ground (arith, eq_iff r s, ==_iff a b)

pub get-set :
    {V : Type 0} (k l : Key) (c : V) (out : Windows V)
    → get l (set k c out) ≡ (if key_eq k l then some c else get l out)
unfolding get set
get-set k l c [] = refl
get-set k l c ((m, d) ∷ rest) =
    ground (arith, key_eq_iff k l, key_eq_iff m k, key_eq_iff m l, get-set k l c rest)

-- The rank that the index has for a window, one more than the status' rank, or zero.
abbrev standing : Option Completion → ℕ
standing none = 0
standing (some c) = suc (rank c.status)

better-le :
    (row : Completion) (prev : Option Completion) (b : Bool)
    → standing prev ≤ standing (if is_better row prev && b then some row else prev)
better-le row none b = ground arith
better-le row (some p) b = ground arith

better-standing :
    (row : Completion) (prev : Option Completion)
    → suc (rank row.status) ≤ standing (if is_better row prev && true then some row else prev)
better-standing row none = ground arith
better-standing row (some p) = ground arith

chosen_cases :
    (b : Bool) {row c : Completion} {o : Option Completion}
    → (if b then some row else o) ≡ some c
    → ((b ≡ true) × (row ≡ c)) ⊎ (o ≡ some c)
chosen_cases true h = inl (refl, ground arith)
chosen_cases false h = inr h

standing_found :
    (n : ℕ) (o : Option Completion)
    → suc n ≤ standing o
    → (c : Completion) × (o ≡ some c) × (n ≤ rank c.status)
standing_found n none h = absurd (omega (arith, h))
standing_found n (some c) h = (c, refl, omega (arith, h))

module _ (row : Completion) (out : Index) where
  pub get-index_row :
      (k : Key)
      → get k (index_row row out) ≡ (
          if is_better row (get (key_of row) out) && key_eq (key_of row) k
          then some row
          else get k out)
  unfolding index_row
  get-index_row k = elim (Bool-cases (is_better row (get (key_of row) out))) [
    | inl h ↦ rw h (get-set (key_of row) k row out)
    | inr h ↦ rw h refl
  ]

  index_row-le : (k : Key) → standing (get k out) ≤ standing (get k (index_row row out))
  index_row-le k = rw (get-index_row k) (elim (Bool-cases (key_eq (key_of row) k)) [
    | inl e ↦
        rw (sym ((key_eq_iff (key_of row) k).0 e))
          (better-le row (get (key_of row) out) (key_eq (key_of row) (key_of row)))
    | inr e ↦ ground arith
  ])

  index_row-standing : suc (rank row.status) ≤ standing (get (key_of row) (index_row row out))
  index_row-standing =
      rw (get-index_row (key_of row), (key_eq_iff (key_of row) (key_of row)).1 refl)
        (better-standing row (get (key_of row) out))

  index_row-kept :
      (k : Key) (c : Completion)
      → get k (index_row row out) ≡ some c
      → ((c ≡ row) × (key_of c ≡ k)) ⊎ (get k out ≡ some c)
  index_row-kept k c h =
      let both = is_better row (get (key_of row) out) && key_eq (key_of row) k in
      elim (chosen_cases both (sym (get-index_row k) ∙ h)) [
        | inl (b, e) ↦
            let q : key_eq (key_of row) k ≡ true = ground arith in
            inl (sym e, ap key_of (sym e) ∙ (key_eq_iff (key_of row) k).0 q)
        | inr g ↦ inr g
      ]

index_rows-le :
    (rows : List Completion) (k : Key) (out : Index)
    → standing (get k out) ≤ standing (get k (index_rows rows out))
unfolding index_rows
index_rows-le [] k out = omega arith
index_rows-le (row ∷ rows) k out =
    omega (arith, index_row-le row out k, index_rows-le rows k (index_row row out))

index_rows-standing :
    (rows : List Completion) (row : Completion) (out : Index)
    → Memᴰ row rows
    → suc (rank row.status) ≤ standing (get (key_of row) (index_rows rows out))
unfolding index_rows
index_rows-standing [] row out m = absurd (Memᴰ.not-nil m)
index_rows-standing (r ∷ rows) row out m = elim (Memᴰ.cases_cons m) [
  | inl e ↦
      rw e
        (omega (arith, index_row-standing r out, index_rows-le rows (key_of r) (index_row r out)))
  | inr t ↦ index_rows-standing rows row (index_row r out) t
]

index_rows-kept :
    (rows : List Completion) (k : Key) (c : Completion) (out : Index)
    → get k (index_rows rows out) ≡ some c
    → (Memᴰ c rows × (key_of c ≡ k)) ⊎ (get k out ≡ some c)
unfolding index_rows
index_rows-kept [] k c out h = inr h
index_rows-kept (row ∷ rows) k c out h = elim (index_rows-kept rows k c (index_row row out) h) [
  | inl (m, e) ↦ inl (Memᴰ.tail m, e)
  | inr g ↦ elim (index_row-kept row out k c g) [
    | inl (e, f) ↦ inl (Memᴰ.head e, f)
    | inr old ↦ inr old
  ]
]

-- What the index has of a window is a completion of that window, and no completion of the window
-- has a better status.
pub record IsBest (rows : List Completion) (k : Key) (c : Completion) : Type 0 where
  pub known : Memᴰ c rows
  pub own_key : key_of c ≡ k
  pub best : (row : Completion) → Memᴰ row rows → key_of row ≡ k → rank row.status ≤ rank c.status

-- If the index has a completion for a window, then it is one of the completions, it is of that
-- window, and no completion of that window has a status of a higher rank.
pub index_completions-IsBest :
    (rows : List Completion) (k : Key) (c : Completion)
    → get k (index_completions rows) ≡ some c
    → IsBest rows k c
unfolding index_completions get
index_completions-IsBest rows k c h = elim (index_rows-kept rows k c [] h) [
  | inr g ↦ ground arith
  | inl (m, e) ↦ record {
    known = m;
    own_key = e;
    best = λ row n f.
        let s = index_rows-standing rows row [] n in
        omega (arith, s, ap (λ l. standing (get l (index_rows rows []))) f, ap standing h);
  }
]

-- A completion's window is in the index, with a status of its rank or a higher one.
pub index_completions-ranked :
    (rows : List Completion) (row : Completion)
    → Memᴰ row rows
    → (c : Completion) × (get (key_of row) (index_completions rows) ≡ some c)
      × (rank row.status ≤ rank c.status)
unfolding index_completions
index_completions-ranked rows row m =
    standing_found (rank row.status) (get (key_of row) (index_rows rows []))
      (index_rows-standing rows row [] m)
