-- ===== src/Delivery/Dedupe/Runs.antt =====
-- What a client can observe of a dedupe store over any sequence of calls.
use market_memory.Prelude.{
  ℕ, ◌≡◌, ◌≤◌, refl, ap, ◌∙◌, Bool, true, false, not, ◌&&◌, ◌||◌, Option, none, some, List, [], ◌∷◌,
  String, str_eq, eq_iff, arith, is_none, if◌then◌else◌, leb, leb→le,
}
use market_memory.Prelude.Dict.{Dict, lookup, insert, lookup-insert}
use market_memory.Delivery.Dedupe.{
  StoreFile, DedupeStore, Stamp, is_fresh, keep_fresh, prune, seen, remember, dump,
}

pub data Call : Type 0 where
  ask note : String → Call

-- The answers of a store to calls at instants.
unfoldable pub answers : List (ℕ × Call) → DedupeStore → List Bool
answers [] s = []
answers ((now, ask key) ∷ calls) s = (seen key now s).0 ∷ answers calls (seen key now s).1
answers ((now, note key) ∷ calls) s = answers calls (remember key now s)

-- The same calls, on the instant at which each key was last noted.
abbrev pub Noted : Type 0
Noted = String → Option ℕ

abbrev pub update : String → ℕ → Noted → Noted
update key now f k = if str_eq key k then some now else f k

unfoldable pub expected : ℕ → List (ℕ × Call) → Noted → List Bool
expected ttl [] f = []
expected ttl ((now, ask key) ∷ calls) f = is_fresh ttl now (f key) ∷ expected ttl calls f
expected ttl ((now, note key) ∷ calls) f = expected ttl calls (update key now f)

-- The instants do not go back.
unfoldable pub in_order : ℕ → List (ℕ × Call) → Bool
in_order now [] = true
in_order now ((t, _) ∷ calls) = leb now t && in_order t calls

abbrev lives : ℕ → ℕ → Option Stamp → Bool
lives ttl t none = false
lives ttl t (some s) = is_fresh ttl t s

abbrev has_key : String → Dict Stamp → Bool
has_key k [] = false
has_key k ((j, s) ∷ d) = str_eq j k || has_key k d

-- A dict has each key once.
unfoldable pub distinct : Dict Stamp → Bool
distinct [] = true
distinct ((j, s) ∷ d) = not (has_key j d) && distinct d

has_key-lookup : (k : String) (d : Dict Stamp) → has_key k d ≡ false → lookup k d ≡ none
unfolding lookup
has_key-lookup k [] h = refl
has_key-lookup k ((j, s) ∷ d) h = ground (arith, has_key-lookup k d)

lookup-keep :
    (ttl now : ℕ) (k : String) (d : Dict Stamp)
    → distinct d ≡ true
    → lookup k (keep_fresh ttl now d) ≡ (if lives ttl now (lookup k d) then lookup k d else none)
unfolding lookup keep_fresh distinct
lookup-keep ttl now k [] u = refl
lookup-keep ttl now k ((j, s) ∷ d) u =
    ground (arith, eq_iff j k, lookup-keep ttl now k d, has_key-lookup j d)

has_key-keep :
    (ttl now : ℕ) (k : String) (d : Dict Stamp)
    → has_key k d ≡ false
    → has_key k (keep_fresh ttl now d) ≡ false
unfolding keep_fresh
has_key-keep ttl now k [] h = refl
has_key-keep ttl now k ((j, s) ∷ d) h = ground (arith, has_key-keep ttl now k d)

keep-distinct :
    (ttl now : ℕ) (d : Dict Stamp) → distinct d ≡ true → distinct (keep_fresh ttl now d) ≡ true
unfolding keep_fresh distinct
keep-distinct ttl now [] u = refl
keep-distinct ttl now ((j, s) ∷ d) u =
    ground (arith, keep-distinct ttl now d, has_key-keep ttl now j d)

has_key-insert :
    (k key : String) (s : Stamp) (d : Dict Stamp)
    → has_key k (insert key s d) ≡ (str_eq key k || has_key k d)
unfolding insert
has_key-insert k key s [] = refl
has_key-insert k key s ((j, t) ∷ d) =
    ground (arith, eq_iff j key, eq_iff j k, eq_iff key k, has_key-insert k key s d)

insert-distinct :
    (key : String) (s : Stamp) (d : Dict Stamp)
    → distinct d ≡ true
    → distinct (insert key s d) ≡ true
unfolding insert distinct
insert-distinct key s [] u = refl
insert-distinct key s ((j, t) ∷ d) u =
    ground (arith, eq_iff j key, eq_iff key j, insert-distinct key s d, has_key-insert j key s d)

-- What the store holds of a key lives, from an instant on, exactly as long as what was noted.
pub record Agrees (ttl now : ℕ) (d : Dict Stamp) (f : Noted) : Type 0 where
  pub own : distinct d ≡ true
  pub same : (k : String) (t : ℕ) → now ≤ t → lives ttl t (lookup k d) ≡ is_fresh ttl t (f k)

lives_mono :
    (ttl now t : ℕ) (o : Option Stamp) → now ≤ t → lives ttl t o ≡ true → lives ttl now o ≡ true
lives_mono ttl now t o h l = ground arith

lives-kept :
    (ttl now t : ℕ) (o : Option Stamp)
    → now ≤ t
    → lives ttl t (if lives ttl now o then o else none) ≡ lives ttl t o
lives-kept ttl now t none h = refl
lives-kept ttl now t (some s) h = ground (arith, lives_mono ttl now t (some s) h)

prune-Agrees :
    (ttl now : ℕ) (d : Dict Stamp) (f : Noted)
    → Agrees ttl now d f
    → Agrees ttl now (keep_fresh ttl now d) f
prune-Agrees ttl now d f a = record {
  own = keep-distinct ttl now d a.own;
  same = λ k t h.
      ap (lives ttl t) (lookup-keep ttl now k d a.own)
      ∙ lives-kept ttl now t (lookup k d) h
      ∙ a.same k t h;
}

note-Agrees :
    (ttl now : ℕ) (key : String) (d : Dict Stamp) (f : Noted)
    → Agrees ttl now d f
    → Agrees ttl now (insert key (some now) d) (update key now f)
note-Agrees ttl now key d f a = record {
  own = insert-distinct key (some now) d a.own;
  same = λ k t h.
      let e = ap (lives ttl t) (lookup-insert key k (some now) d) in
      let s = a.same k t h in ground arith;
}

later-Agrees :
    (ttl now t : ℕ) (d : Dict Stamp) (f : Noted) → now ≤ t → Agrees ttl now d f → Agrees ttl t d f
later-Agrees ttl now t d f h a = record {
  own = a.own;
  same = λ k u l. a.same k u (omega (arith, h, l));
}

kept_answer :
    (ttl now : ℕ) (o : Option Stamp)
    → not (is_none (if lives ttl now o then o else none)) ≡ lives ttl now o
kept_answer ttl now none = refl
kept_answer ttl now (some x) = ground arith

answer_same :
    (ttl now : ℕ) (key : String) (d : Dict Stamp) (f : Noted)
    → Agrees ttl now d f
    → not (is_none (lookup key (keep_fresh ttl now d))) ≡ is_fresh ttl now (f key)
answer_same ttl now key d f a =
    let e = lookup-keep ttl now key d a.own in
    let s = a.same key now (omega arith) in
    ap (λ o. not (is_none o)) e ∙ kept_answer ttl now (lookup key d) ∙ s

cons_same : {x y : Bool} {xs ys : List Bool} → x ≡ y → xs ≡ ys → x ∷ xs ≡ y ∷ ys
cons_same e f = rw (e, f) refl

-- If a store holds what was noted and the instants of the calls do not go back, then the store
-- answers each call as the notes do: whether the key was noted within the time to live.
pub answers_refine :
    (calls : List (ℕ × Call)) (s : DedupeStore) (now : ℕ) (f : Noted)
    → Agrees s.ttl_seconds now s.records f
    → in_order now calls ≡ true
    → answers calls s ≡ expected s.ttl_seconds calls f
unfolding answers expected in_order seen prune remember dump
answers_refine [] s now f a o = refl
answers_refine ((t, ask key) ∷ calls) s now f a o =
    let b = later-Agrees s.ttl_seconds now t s.records f (leb→le now t (ground arith)) a in
    cons_same (answer_same s.ttl_seconds t key s.records f b) (
      answers_refine calls (prune t s) t f (prune-Agrees s.ttl_seconds t s.records f b)
        (ground arith))
answers_refine ((t, note key) ∷ calls) s now f a o =
    let b = later-Agrees s.ttl_seconds now t s.records f (leb→le now t (ground arith)) a in
    answers_refine calls (remember key t s) t (update key t f)
      (note-Agrees s.ttl_seconds t key s.records f b) (ground arith)

abbrev pub new_store : ℕ → StoreFile → DedupeStore
new_store ttl path = record { ttl_seconds = ttl; path = path; records = [] }

-- From a store without records, if the instants of the calls do not go back, then seen answers
-- whether the key was remembered at most the time to live before, whatever the other calls prune.
pub answers-new_refine :
    (calls : List (ℕ × Call)) (ttl : ℕ) (path : StoreFile)
    → in_order 0 calls ≡ true
    → answers calls (new_store ttl path) ≡ expected ttl calls (λ _. none)
unfolding distinct lookup
answers-new_refine calls ttl path o =
    answers_refine calls (new_store ttl path) 0 (λ _. none)
      (record { own = refl; same = λ k t h. refl }) o
