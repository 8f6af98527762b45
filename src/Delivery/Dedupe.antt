-- ===== src/Delivery/Dedupe.antt =====
-- packages/delivery/src/mm_delivery/{idempotency,rate_limit}.py: the keys that were sent, and the
-- send budget. An instant is a number of seconds; a stamp that does not parse is none.
pub mod Laws
pub mod Runs
mod Examples
use market_memory.Prelude.{
  ℕ, ◌+◌, ◌-◌, suc, Bool, true, false, not, Option, none, some, List, [], ◌∷◌, String,
  if◌then◌else◌, leb, is_none,
}
use market_memory.Prelude.Dict.{Dict, lookup, insert}

abbrev pub Stamp : Type 0
Stamp = Option ℕ

-- The path of the store: none, one without a file, or a file and what it holds.
pub data StoreFile : Type 0 where
  no_path no_file : StoreFile
  saved : Dict Stamp → StoreFile

pub record DedupeStore : Type 0 where
  pub ttl_seconds : ℕ
  pub path : StoreFile
  pub records : Dict Stamp

unfoldable pub load : DedupeStore → DedupeStore
load s = elim s.path [
  | saved d ↦ record { ttl_seconds = s.ttl_seconds; path = s.path; records = d }
  | _ ↦ s
]

abbrev dumped : StoreFile → Dict Stamp → StoreFile
dumped no_path d = no_path
dumped no_file d = saved d
dumped (saved _) d = saved d

unfoldable pub dump : DedupeStore → DedupeStore
dump s = record { ttl_seconds = s.ttl_seconds; path = dumped s.path s.records; records = s.records }

-- `when >= now - ttl`
abbrev pub is_fresh : ℕ → ℕ → Stamp → Bool
is_fresh ttl now none = false
is_fresh ttl now (some t) = leb now (t + ttl)

unfoldable pub keep_fresh : ℕ → ℕ → Dict Stamp → Dict Stamp
keep_fresh ttl now [] = []
keep_fresh ttl now ((key, stamp) ∷ d) =
    if is_fresh ttl now stamp then (key, stamp) ∷ keep_fresh ttl now d else keep_fresh ttl now d

unfoldable pub prune : ℕ → DedupeStore → DedupeStore
prune now s = record {
  ttl_seconds = s.ttl_seconds;
  path = s.path;
  records = keep_fresh s.ttl_seconds now s.records;
}

unfoldable pub seen : String → ℕ → DedupeStore → Bool × DedupeStore
seen key now s = (not (is_none (lookup key (prune now s).records)), prune now s)

unfoldable pub remember : String → ℕ → DedupeStore → DedupeStore
remember key now s = dump (record {
  ttl_seconds = s.ttl_seconds;
  path = s.path;
  records = insert key (some now) s.records;
})

-- `RateLimitBudget`
pub record RateLimitBudget : Type 0 where
  pub max_requests_per_minute : ℕ
  pub used : ℕ
  pub skipped : ℕ

unfoldable pub remaining : RateLimitBudget → ℕ
remaining b = b.max_requests_per_minute - b.used

unfoldable pub allow : RateLimitBudget → Bool × RateLimitBudget
allow b =
    if leb b.max_requests_per_minute b.used
    then (
      false,
      record {
        max_requests_per_minute = b.max_requests_per_minute;
        used = b.used;
        skipped = suc b.skipped;
      },
    )
    else (
      true,
      record {
        max_requests_per_minute = b.max_requests_per_minute;
        used = suc b.used;
        skipped = b.skipped;
      },
    )
