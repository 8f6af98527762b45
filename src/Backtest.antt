-- ===== src/Backtest.antt =====
-- packages/backtest: the replay of bars at the instants at which they became known.
pub mod Views
pub mod Replay
pub mod Strategies
pub mod Run
mod Tests
