-- ===== src/Risk/Clusters.antt =====
-- packages/risk/src/mm_risk/clusters.py: the two fields of `ClusterConfig` that the engine reads.
-- The membership by trailing correlation stands on float statistics and is left out.
use market_memory.Prelude.{String}
use market_memory.Prelude.Int.{ℤ}

pub record ClusterCap : Type 0 where
  pub max_cluster_pct : ℤ
  pub rule_id : String
