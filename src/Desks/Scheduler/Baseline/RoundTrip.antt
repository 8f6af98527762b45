-- ===== src/Desks/Scheduler/Baseline/RoundTrip.antt =====
-- What a written baseline loads as.
use mathlib.Core.Path.{subst}
use market_memory.Prelude.{
  Bool-cases, true, false, none, some, List, [], ◌∷◌, String, truthy, or_default, if◌then◌else◌,
  ◌≡◌, refl, sym, ap, ◌∙◌, inl, inr, arith,
}
use market_memory.Prelude.Members.{Memᴰ}
use market_memory.Desks.Scheduler.{Key, key_eq}
use market_memory.Desks.Scheduler.Index.{Windows, get, set, key_in}
use market_memory.Desks.Scheduler.Index.Laws.{key_eq_iff, get-set}
use market_memory.Desks.Scheduler.Report.{Miss}
use market_memory.Desks.Scheduler.Baseline.Laws.{key_in-set}
use market_memory.Desks.Scheduler.Baseline.{
  known_missed_label, Window, window_of, key_of_miss, merge_windows, keys_of, row_of, rows_of,
  load_row, load_rows, load_known_missed_baseline, write_known_missed_baseline, row_window, text_or,
}

-- What the windows of a baseline are: each under its own key and once, and without an empty
-- routine, reason or label.
pub record IsEntry (k : Key) (w : Window) : Type 0 where
  pub own_key : k ≡ (w.routine_id, w.scheduled_anchor_ts)
  pub routine : truthy (some w.routine_id) ≡ true
  pub reason : truthy (some w.reason) ≡ true
  pub label : truthy (some w.label) ≡ true

unfoldable pub IsFile : Windows Window → Type 0
IsFile [] = Unit
IsFile ((k, w) ∷ rest) = IsEntry k w × (key_in k (keys_of rest) ≡ false) × IsFile rest

or_default-truthy : (t d : String) → truthy (some t) ≡ true → or_default t d ≡ t
or_default-truthy String.[] d h = ground arith
or_default-truthy (String.◌∷◌ c t) d h = refl

load_row-row_of :
    (k : Key) (w : Window) (out : Windows Window)
    → IsEntry k w
    → load_row (row_of w) out ≡ set k w out
unfolding load_row row_of row_window text_or
load_row-row_of k w out i =
    rw
      (
        i.routine,
        or_default-truthy w.reason "closed_window_no_completion" i.reason,
        or_default-truthy w.label known_missed_label i.label,
        sym i.own_key,
      )
      refl

get-load_rows :
    (l : Key) (d out : Windows Window)
    → IsFile d
    → get l (load_rows (rows_of d) out) ≡ (if key_in l (keys_of d) then get l d else get l out)
unfolding load_rows rows_of keys_of key_in get IsFile
get-load_rows l [] out i = refl
get-load_rows l ((k, w) ∷ rest) out (e, fresh, i) = ground (
  arith,
  get-load_rows l rest (load_row (row_of w) out) i,
  ap (get l) (load_row-row_of k w out e),
  get-set k l w out,
  key_eq_iff k l,
)

IsFile-set :
    (k : Key) (w : Window) (d : Windows Window) → IsEntry k w → IsFile d → IsFile (set k w d)
unfolding IsFile set keys_of key_in
IsFile-set k w [] e i = (e, refl, tt)
IsFile-set k w ((m, v) ∷ rest) e (f, fresh, i) = elim (Bool-cases (key_eq m k)) [
  | inl h ↦ rw h (subst (λ l. IsEntry l w) (sym ((key_eq_iff m k).0 h)) e, fresh, i)
  | inr h ↦
      let n : key_eq k m ≡ false = ground (arith, key_eq_iff m k, key_eq_iff k m) in
      rw h (f, rw (key_in-set m k w rest, n) fresh, IsFile-set k w rest e i)
]

IsFile-merge :
    (d : Windows Window) (ms : List Miss)
    → IsFile d
    → ((m : Miss)
        → Memᴰ m ms
        → (truthy (some m.routine_id) ≡ true) × (truthy (some m.reason) ≡ true))
    → IsFile (merge_windows d ms)
unfolding merge_windows window_of
IsFile-merge d [] i h = i
IsFile-merge d (m ∷ ms) i h =
    let (a, b) = h m (Memᴰ.head refl) in
    let e : IsEntry (key_of_miss m) (window_of m) = record {
      own_key = refl;
      routine = a;
      reason = b;
      label = refl;
    } in
    IsFile-merge (set (key_of_miss m) (window_of m) d) ms (IsFile-set _ _ d e i)
      (λ n k. h n (Memᴰ.tail k))

not_in-get : (k : Key) (d : Windows Window) → key_in k (keys_of d) ≡ false → get k d ≡ none
unfolding get key_in keys_of
not_in-get k [] h = refl
not_in-get k ((l, w) ∷ rest) h = ground (arith, not_in-get k rest)

get_in :
    (k : Key) (d : Windows Window) → (if key_in k (keys_of d) then get k d else get k []) ≡ get k d
unfolding get
get_in k d = elim (Bool-cases (key_in k (keys_of d))) [
  | inl y ↦ rw y refl
  | inr n ↦ rw (n, not_in-get k d n) refl
]

-- If the known windows are those of a file, and no miss has an empty routine or reason, then the
-- rows that write_known_missed_baseline writes load as the known windows with the misses merged
-- in, at every window.
pub baseline_roundtrip :
    (existing : Windows Window) (windows : List Miss)
    → IsFile existing
    → ((m : Miss)
        → Memᴰ m windows
        → (truthy (some m.routine_id) ≡ true) × (truthy (some m.reason) ≡ true))
    → (k : Key)
    → get k (load_known_missed_baseline (write_known_missed_baseline existing windows))
      ≡ get k (merge_windows existing windows)
unfolding load_known_missed_baseline write_known_missed_baseline
baseline_roundtrip existing windows i h k =
    let d = merge_windows existing windows in
    get-load_rows k d [] (IsFile-merge existing windows i h) ∙ get_in k d
