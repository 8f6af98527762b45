-- ===== src/Desks.antt =====
-- The desk runners: packages/desks.
pub mod Lifecycle
pub mod SkepticGate
pub mod Queue
pub mod Scheduler
pub mod Receipts
pub mod Completions
pub mod Store
mod Tests
