-- ===== src/Desks/Completions/Laws.antt =====
-- Files are only added, and what is added is loaded.
use Prim.Native.String.{◌++◌ as append}
use mathlib.Core.Path.{subst}
use mathlib.Core.Option.{some_inj}
use text.Mathlib.TextLemmas.{nil-append, cons-append}
use market_memory.Desks.Receipts.Names.{safe_id}
use market_memory.Prelude.{
  or-true, or_default, ℕ, true, Option, some, [], ◌∷◌, String, str_eq, ok, ◌≡◌, refl, arith, inl,
  inr, Bool-cases, Result-cases, sym, eq_iff,
}
use market_memory.Prelude.Members.{Memᴰ}
use market_memory.Prelude.Members.Memᴰ
use market_memory.Prelude.Dict.{lookup}
use market_memory.Desks.Scheduler.{Clock, Completion, Catalog}
use market_memory.Desks.Scheduler.Rows.{CompletionRow, completion_from_mapping}
use market_memory.Desks.Completions.{
  Content, unusable, row, Files, is_json, before, insert_sorted, sorted_json, load_rows,
  load_disk_completions, completion_filename,
}

json_suffix : is_json ".json" ≡ true
unfolding is_json
json_suffix = refl

is_json-append : (s t : String) → is_json t ≡ true → is_json (append s t) ≡ true
unfolding is_json
is_json-append String.[] t h = rw (nil-append t) h
is_json-append (String.◌∷◌ c s) t h = rw (cons-append c s t) (or-true _ (is_json-append s t h))

pub filename-json :
    (strftime : ℕ → String) (c : Completion) → is_json (completion_filename strftime c) ≡ true
unfolding completion_filename
filename-json strftime c = is_json-append _ _ (
    is_json-append "__" _ (
      is_json-append (strftime c.scheduled_anchor_ts) _ (
        is_json-append "__" _
          (is_json-append (or_default (safe_id c.run_id) "run") ".json" json_suffix))))

insert_sorted-head : (f : String × Content) (files : Files) → Memᴰ f (insert_sorted f files)
unfolding insert_sorted
insert_sorted-head f [] = Memᴰ.head refl
insert_sorted-head f (g ∷ files) = elim (Bool-cases (before f.0 g.0)) [
  | inl h ↦ rw h (Memᴰ.head refl)
  | inr h ↦ rw h (Memᴰ.tail (insert_sorted-head f files))
]

insert_sorted-mem :
    (f : String × Content) (files : Files) {x : String × Content}
    → Memᴰ x files
    → Memᴰ x (insert_sorted f files)
unfolding insert_sorted
insert_sorted-mem f [] m = absurd (Memᴰ.not-nil m)
insert_sorted-mem f (g ∷ files) m = elim (Bool-cases (before f.0 g.0)) [
  | inl h ↦ rw h (Memᴰ.tail m)
  | inr h ↦ rw h (elim (Memᴰ.cases_cons m) [
    | inl e ↦ Memᴰ.head e
    | inr t ↦ Memᴰ.tail (insert_sorted-mem f files t)
  ])
]

sorted_json-mem :
    (files : Files) {x : String × Content}
    → Memᴰ x files
    → is_json x.0 ≡ true
    → Memᴰ x (sorted_json files)
unfolding sorted_json
sorted_json-mem [] m j = absurd (Memᴰ.not-nil m)
sorted_json-mem (f ∷ files) (Memᴰ.head e) j = rw (← e, j) (insert_sorted-head _ (sorted_json files))
sorted_json-mem (f ∷ files) (Memᴰ.tail m) j = elim (Bool-cases (is_json f.0)) [
  | inl h ↦ rw h (insert_sorted-mem f (sorted_json files) (sorted_json-mem files m j))
  | inr h ↦ rw h (sorted_json-mem files m j)
]

pair : {A B : Type 0} {a a' : A} {b b' : B} → a ≡ a' → b ≡ b' → ◌≡◌ {A = A × B} (a, b) (a', b')
pair p q = λ i. (p i, q i)

lookup-mem :
    (name : String) (files : Files) {x : Content}
    → lookup name files ≡ some x
    → Memᴰ (name, x) files
unfolding lookup
lookup-mem name [] h = absurd (ground arith)
lookup-mem name ((k, y) ∷ files) h = elim (Bool-cases (str_eq k name)) [
  | inl e ↦ Memᴰ.head (pair (sym ((eq_iff k name).0 e)) (sym (some_inj.0 (rw e at h))))
  | inr e ↦ Memᴰ.tail (lookup-mem name files (rw e at h))
]

load_rows-mem :
    (clock : Clock) (strftime : ℕ → String) (catalog : Option Catalog) (files : Files)
    {name : String} {r : CompletionRow} {c : Completion}
    → Memᴰ (name, row r) files
    → completion_from_mapping clock strftime catalog r ≡ ok c
    → Memᴰ c (load_rows clock strftime catalog files)
unfolding load_rows
load_rows-mem clock strftime catalog [] m h = absurd (Memᴰ.not-nil m)
load_rows-mem clock strftime catalog (f ∷ files) {c = c} (Memᴰ.head e) h =
    subst (λ g. Memᴰ c (load_rows clock strftime catalog (g ∷ files))) e
      (rw (load_rows, h) (Memᴰ.head refl))
load_rows-mem clock strftime catalog ((k, unusable) ∷ files) (Memᴰ.tail m) h =
    load_rows-mem clock strftime catalog files m h
load_rows-mem clock strftime catalog ((k, row q) ∷ files) (Memᴰ.tail m) h =
    elim (Result-cases (completion_from_mapping clock strftime catalog q)) [
      | inl (p, e) ↦ rw (e, load_rows) (load_rows-mem clock strftime catalog files m h)
      | inr (d, e) ↦ rw (e, load_rows) (Memᴰ.tail (load_rows-mem clock strftime catalog files m h))
    ]

-- A file with a row that loads gives a completion that the sweep reads.
pub load_disk-mem :
    (clock : Clock) (strftime : ℕ → String) (catalog : Option Catalog) (files : Files)
    (name : String) {r : CompletionRow} {c : Completion}
    → is_json name ≡ true
    → lookup name files ≡ some (row r)
    → completion_from_mapping clock strftime catalog r ≡ ok c
    → Memᴰ c (load_disk_completions clock strftime catalog files)
unfolding load_disk_completions
load_disk-mem clock strftime catalog files name j f h =
    load_rows-mem clock strftime catalog (sorted_json files)
      (sorted_json-mem files (lookup-mem name files f) j) h
