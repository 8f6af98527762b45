-- ===== src/Memory/Observations/Returns.antt =====
-- A put that no other session interferes with returns.
use market_memory.Prelude.{true, false, Option, some, ◌≡◌, leb}
use market_memory.Memory.Rows.{
  ObservationEnvelope, Source, FreshIds, Observation, Db, taken, RawObject,
}

-- The rows that a put adds break no constraint.
pub record IsReady (fresh : FreshIds) (source : Option Source) (e : ObservationEnvelope) (db : Db)
    : Type 0 where
  pub source_id : taken (λ (s : Source). s.id) fresh.source_id db.sources ≡ false
  pub raw_id : taken (λ (o : RawObject). o.id) fresh.raw_id db.raw_objects ≡ false
  pub observation_id :
      taken (λ (o : Observation). o.id) fresh.observation_id db.observations ≡ false
  pub stored : (s : Source) → source ≡ some s → taken (λ (t : Source). t.id) s.id db.sources ≡ true
  pub sure : leb e.confidence 1000 ≡ true
