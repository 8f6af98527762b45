-- ===== src/Common.antt =====
-- The helpers that the packages share: packages/common.
pub mod Http
mod Tests
