-- ===== src/Risk.antt =====
-- The deterministic risk gate: packages/risk/src/mm_risk.
pub mod Config
pub mod Drawdown
pub mod Clusters
pub mod Engine
mod Tests
