-- ===== src/Backtest/Replay/Clock.antt =====
-- The clock of a replay.
use market_memory.Prelude.{
  ◌&&◌, ℕ, ◌≤◌, ◌<◌, Bool, Bool-cases, true, Option, none, some, List, [], ◌∷◌, ◌++◌, leb, ltb,
  ==_iff, leb→le, if◌then◌else◌, ◌≡◌, refl, ap, ◌∙◌, inl, inr, arith,
}
use market_memory.Prelude.Members.{Memᴰ, kept_cases}
use market_memory.Prelude.Members.Memᴰ
use market_memory.Backtest.Views.{Bar, visible_bars}
use market_memory.Backtest.Replay.{insert_stamp, stamps_of, keep, is_from, is_to, replay_clock}

abbrev pub all_above : ℕ → List ℕ → Bool
all_above t [] = true
all_above t (u ∷ us) = ltb t u && all_above t us

-- Strictly ascending.
unfoldable pub ascending : List ℕ → Bool
ascending [] = true
ascending (t ∷ ts) = all_above t ts && ascending ts

all_above-insert :
    (t u : ℕ) (us : List ℕ) → all_above t us ≡ true → t < u → all_above t (insert_stamp u us) ≡ true
unfolding insert_stamp
all_above-insert t u [] a h = ground arith
all_above-insert t u (v ∷ us) a h = ground (arith, all_above-insert t u us)

all_above_trans : (t u : ℕ) (us : List ℕ) → t < u → all_above u us ≡ true → all_above t us ≡ true
all_above_trans t u [] h a = refl
all_above_trans t u (v ∷ us) h a = ground (arith, all_above_trans t u us)

insert_stamp-ascending :
    (t : ℕ) (us : List ℕ) → ascending us ≡ true → ascending (insert_stamp t us) ≡ true
unfolding insert_stamp ascending
insert_stamp-ascending t [] a = refl
insert_stamp-ascending t (u ∷ us) a = ground (
  arith,
  ==_iff t u,
  insert_stamp-ascending t us,
  all_above-insert u t us,
  all_above_trans t u us,
)

module _ {D : Type 0} where
  stamps_of-ascending : (bars : List (Bar D)) → ascending (stamps_of bars) ≡ true
  unfolding stamps_of ascending
  stamps_of-ascending [] = refl
  stamps_of-ascending (bar ∷ bars) =
      insert_stamp-ascending bar.available_at (stamps_of bars) (stamps_of-ascending bars)

keep_late :
    (end t : ℕ) (us : List ℕ) → end < t → all_above t us ≡ true → keep (is_to (some end)) us ≡ []
unfolding keep
keep_late end t [] h a = refl
keep_late end t (u ∷ us) h a = ground (arith, keep_late end t us)

keep-insert :
    (end t : ℕ) (us : List ℕ)
    → ascending us ≡ true
    → keep (is_to (some end)) (insert_stamp t us) ≡ (
        if leb t end
        then insert_stamp t (keep (is_to (some end)) us)
        else keep (is_to (some end)) us)
unfolding keep insert_stamp ascending
keep-insert end t [] a = ground arith
keep-insert end t (u ∷ us) a = ground (arith, ==_iff t u, keep-insert end t us, keep_late end u us)

mem-keep : (test : ℕ → Bool) (t : ℕ) (ts : List ℕ) → Memᴰ t (keep test ts) → test t ≡ true
unfolding keep
mem-keep test t [] m = absurd (Memᴰ.not-nil m)
mem-keep test t (u ∷ us) m = elim (kept_cases (test u) m) [
  | inl (h, e) ↦ rw e h
  | inr k ↦ mem-keep test t us k
]

keep_comm : (p q : ℕ → Bool) (ts : List ℕ) → keep p (keep q ts) ≡ keep q (keep p ts)
unfolding keep
keep_comm p q [] = refl
keep_comm p q (t ∷ ts) = ground (arith, keep_comm p q ts)

all_above-keep :
    (test : ℕ → Bool) (t : ℕ) (ts : List ℕ)
    → all_above t ts ≡ true
    → all_above t (keep test ts) ≡ true
unfolding keep
all_above-keep test t [] a = refl
all_above-keep test t (u ∷ us) a = ground (arith, all_above-keep test t us)

keep_all : (ts : List ℕ) → keep (is_to none) ts ≡ ts
unfolding keep
keep_all [] = refl
keep_all (t ∷ ts) = ap (λ us. t ∷ us) (keep_all ts)

keep-ascending :
    (test : ℕ → Bool) (ts : List ℕ) → ascending ts ≡ true → ascending (keep test ts) ≡ true
unfolding keep ascending
keep-ascending test [] a = refl
keep-ascending test (t ∷ ts) a = ground (arith, keep-ascending test ts, all_above-keep test t ts)

-- An ascending clock is what it has up to an instant, and then the rest.
split_at :
    (end : ℕ) (ts : List ℕ)
    → ascending ts ≡ true
    → (later : List ℕ) × (ts ≡ keep (is_to (some end)) ts ++ later)
unfolding keep ascending
split_at end [] a = ([], refl)
split_at end (t ∷ ts) a = elim (Bool-cases (leb t end)) [
  | inl h ↦ let (later, e) = split_at end ts (ground arith) in (later, rw h (ap (λ us. t ∷ us) e))
  | inr h ↦ (t ∷ ts, rw (h, keep_late end t ts (ground arith) (ground arith)) refl)
]

module _ {D : Type 0} where
  keep-stamps_of :
      (end : ℕ) (bars : List (Bar D))
      → keep (is_to (some end)) (stamps_of bars) ≡ stamps_of (visible_bars bars end)
  unfolding stamps_of visible_bars keep
  keep-stamps_of end [] = refl
  keep-stamps_of end (bar ∷ bars) = elim (Bool-cases (leb bar.available_at end)) [
    | inl h ↦ rw h (
        keep-insert end bar.available_at (stamps_of bars) (stamps_of-ascending bars)
        ∙ rw h (ap (insert_stamp bar.available_at) (keep-stamps_of end bars)))
    | inr h ↦ rw h (
        keep-insert end bar.available_at (stamps_of bars) (stamps_of-ascending bars)
        ∙ rw h (keep-stamps_of end bars))
  ]

  -- The clock up to an instant is the clock of the bars that are known at that instant.
  pub replay_clock-visible :
      (start : Option ℕ) (end : ℕ) (bars : List (Bar D))
      → replay_clock bars start (some end)
        ≡ keep (is_from start) (stamps_of (visible_bars bars end))
  unfolding replay_clock
  replay_clock-visible start end bars =
      keep_comm (is_to (some end)) (is_from start) (stamps_of bars)
      ∙ ap (keep (is_from start)) (keep-stamps_of end bars)

  pub replay_clock-le :
      (start : Option ℕ) (end t : ℕ) (bars : List (Bar D))
      → Memᴰ t (replay_clock bars start (some end))
      → t ≤ end
  unfolding replay_clock
  replay_clock-le start end t bars m =
      leb→le t end (mem-keep (is_to (some end)) t (keep (is_from start) (stamps_of bars)) m)

  -- The clock without an end is the clock up to an instant, and then the rest.
  pub replay_clock-split :
      (start : Option ℕ) (end : ℕ) (bars : List (Bar D))
      → (later : List ℕ) × (replay_clock bars start none
          ≡ replay_clock bars start (some end) ++ later)
  unfolding replay_clock
  replay_clock-split start end bars =
      let ts = keep (is_from start) (stamps_of bars) in
      let (later, e) =
        split_at end ts
          (keep-ascending (is_from start) (stamps_of bars) (stamps_of-ascending bars)) in
      (later, keep_all ts ∙ e)
