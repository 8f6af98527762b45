-- ===== src/Desks/Scheduler/Index.antt =====
-- packages/desks/src/mm_desks/scheduler.py: the completions by window, the best status first.
pub mod Laws
use market_memory.Prelude.{
  Option, none, some, List, [], ◌∷◌, leb, if◌then◌else◌, Bool, true, false, ◌||◌,
}
use market_memory.Desks.Scheduler.{Completion, Key, key_eq, key_of, rank}

-- A dict by windows, in insertion order.
abbrev pub Windows : Type 0 → Type 0
Windows V = List (Key × V)

abbrev pub Index : Type 0
Index = Windows Completion

-- `out.get(key)`
unfoldable pub get : {V : Type 0} → Key → Windows V → Option V
get k [] = none
get k ((l, c) ∷ rest) = if key_eq l k then some c else get k rest

-- `out[key] = row`
unfoldable pub set : {V : Type 0} → Key → V → Windows V → Windows V
set k c [] = (k, c) ∷ []
set k c ((l, d) ∷ rest) = if key_eq l k then (l, c) ∷ rest else (l, d) ∷ set k c rest

abbrev pub is_better : Completion → Option Completion → Bool
is_better row none = true
is_better row (some prev) = leb (rank prev.status) (rank row.status)

unfoldable pub index_row : Completion → Index → Index
index_row row out = if is_better row (get (key_of row) out) then set (key_of row) row out else out

-- The loop of `_index_completions`.
unfoldable pub index_rows : List Completion → Index → Index
index_rows [] out = out
index_rows (row ∷ rows) out = index_rows rows (index_row row out)

-- `_index_completions`
unfoldable pub index_completions : List Completion → Index
index_completions rows = index_rows rows []

-- `key in keys`
unfoldable pub key_in : Key → List Key → Bool
key_in k [] = false
key_in k (l ∷ ls) = key_eq l k || key_in k ls
