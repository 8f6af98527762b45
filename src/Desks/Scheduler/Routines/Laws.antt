-- ===== src/Desks/Scheduler/Routines/Laws.antt =====
-- What the merged catalog has of an id.
use market_memory.Prelude.{
  Bool, ◌&&◌, ◌||◌, not, Bool-cases, false, Option, none, some, List, [], ◌∷◌, String, str_eq,
  eq_iff, ◌≡◌, refl, sym, ◌∙◌, ap, arith, inl, inr, if◌then◌else◌,
}
use market_memory.Desks.Scheduler.{Routine}
use market_memory.Desks.Scheduler.Routines.{not, is_canary, put_routine, merge_routines, by_id}

-- The last routine of an id that is no canary, or a default.
abbrev pub last_of : String → List Routine → Option Routine → Option Routine
last_of key [] old = old
last_of key (r ∷ rs) old =
    last_of key rs
      (if not (is_canary r.routine_id r.display) && str_eq r.routine_id key then some r else old)

abbrev has_id : String → List Routine → Bool
has_id key [] = false
has_id key (r ∷ rs) = str_eq r.routine_id key || has_id key rs

-- The catalog has each id once.
unfoldable pub IsUnique : List Routine → Type 0
IsUnique [] = Unit
IsUnique (r ∷ rs) = (has_id r.routine_id rs ≡ false) × IsUnique rs

has_id-by_id : (key : String) (rs : List Routine) → has_id key rs ≡ false → by_id key rs ≡ none
unfolding by_id
has_id-by_id key [] h = refl
has_id-by_id key (r ∷ rs) h = ground (arith, has_id-by_id key rs)

has_id-put :
    (key : String) (r : Routine) (rs : List Routine)
    → has_id key (put_routine r rs) ≡ (str_eq r.routine_id key || has_id key rs)
unfolding put_routine
has_id-put key r [] = refl
has_id-put key r (q ∷ rs) = ground (
  arith,
  eq_iff q.routine_id r.routine_id,
  eq_iff q.routine_id key,
  eq_iff r.routine_id key,
  has_id-put key r rs,
)

by_id-put :
    (key : String) (r : Routine) (rs : List Routine)
    → IsUnique rs
    → by_id key (put_routine r rs) ≡ (if str_eq r.routine_id key then some r else by_id key rs)
unfolding put_routine by_id IsUnique
by_id-put key r [] u = refl
by_id-put key r (q ∷ rs) (n, u) = ground (
  arith,
  eq_iff q.routine_id r.routine_id,
  eq_iff q.routine_id key,
  eq_iff r.routine_id key,
  by_id-put key r rs u,
  has_id-by_id r.routine_id rs,
  has_id-by_id key rs,
)

IsUnique-put : (r : Routine) (rs : List Routine) → IsUnique rs → IsUnique (put_routine r rs)
unfolding put_routine IsUnique
IsUnique-put r [] u = (refl, tt)
IsUnique-put r (q ∷ rs) (n, u) = elim (Bool-cases (str_eq q.routine_id r.routine_id)) [
  | inl h ↦ rw h (rw (sym ((eq_iff q.routine_id r.routine_id).0 h)) n, u)
  | inr h ↦ rw h (
    rw (has_id-put q.routine_id r rs)
        (ground (arith, eq_iff q.routine_id r.routine_id, eq_iff r.routine_id q.routine_id)),
    IsUnique-put r rs u,
  )
]

merge-IsUnique : (rs merged : List Routine) → IsUnique merged → IsUnique (merge_routines rs merged)
unfolding merge_routines
merge-IsUnique [] merged u = u
merge-IsUnique (r ∷ rs) merged u = elim (Bool-cases (is_canary r.routine_id r.display)) [
  | inl h ↦ rw h (merge-IsUnique rs merged u)
  | inr h ↦ rw h (merge-IsUnique rs (put_routine r merged) (IsUnique-put r merged u))
]

by_id-merge :
    (key : String) (rs merged : List Routine)
    → IsUnique merged
    → by_id key (merge_routines rs merged) ≡ last_of key rs (by_id key merged)
unfolding merge_routines
by_id-merge key [] merged u = refl
by_id-merge key (r ∷ rs) merged u = elim (Bool-cases (is_canary r.routine_id r.display)) [
  | inl h ↦ rw h (by_id-merge key rs merged u)
  | inr h ↦ rw h (
      by_id-merge key rs (put_routine r merged) (IsUnique-put r merged u)
      ∙ ap (last_of key rs) (by_id-put key r merged u))
]

-- The merged catalog has each id once, and has for an id the last routine of that id among those
-- that are no canaries.
pub merged_catalog :
    (key : String) (rs : List Routine)
    → IsUnique (merge_routines rs []) × (by_id key (merge_routines rs []) ≡ last_of key rs none)
unfolding by_id IsUnique
merged_catalog key rs = (merge-IsUnique rs [] tt, by_id-merge key rs [] tt)
