-- ===== src/Ingest.antt =====
-- packages/ingest: the licences of adapters and their request budgets.
pub mod Licence
