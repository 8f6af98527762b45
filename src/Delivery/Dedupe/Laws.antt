-- ===== src/Delivery/Dedupe/Laws.antt =====
-- A remembered key is seen for its time to live, also by a store that loads the file again.
use market_memory.Prelude.{
  ℕ, ◌≡◌, ◌≤◌, ◌+◌, true, false, some, [], ◌∷◌, String, eq_iff, arith, is_none,
}
use market_memory.Prelude.Dict.{Dict, lookup, insert, lookup-insert}
use market_memory.Delivery.Dedupe.{
  DedupeStore, Stamp, keep_fresh, prune, seen, remember, load, dump,
}

lookup-keep_fresh :
    (ttl now t : ℕ) (k : String) (d : Dict Stamp)
    → lookup k d ≡ some (some t)
    → now ≤ t + ttl
    → is_none (lookup k (keep_fresh ttl now d)) ≡ false
unfolding lookup keep_fresh
lookup-keep_fresh ttl now t k [] h le = ground arith
lookup-keep_fresh ttl now t k ((j, s) ∷ d) h le = ground (arith, lookup-keep_fresh ttl now t k d)

-- A key that was remembered is seen, up to the time to live later, also after the store loads its
-- file again.
pub seen-remember :
    (key : String) (at now : ℕ) (s : DedupeStore)
    → now ≤ at + s.ttl_seconds
    → (seen key now (load (remember key at s))).0 ≡ true
unfolding seen remember load dump prune
seen-remember key at now s le = ground (
  arith,
  eq_iff key key,
  lookup-insert key key (some at) s.records,
  lookup-keep_fresh s.ttl_seconds now at key (insert key (some at) s.records),
)
