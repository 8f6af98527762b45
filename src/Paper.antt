-- ===== src/Paper.antt =====
-- The shadow ledger of paper trades: packages/paper.
pub mod Ledger
pub mod Trades
pub mod Close
mod Tests
