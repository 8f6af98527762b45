-- ===== src/Memory.antt =====
-- packages/memory: the tables of Market Memory and the repositories that write them.
pub mod Rows
pub mod Observations
pub mod Heartbeat
