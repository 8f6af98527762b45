-- ===== src/Research.antt =====
-- The research workspace: packages/research_kit and the status enums of packages/common.
pub mod Enums
pub mod Errors
pub mod StateMachine
pub mod Markdown
pub mod Workspace
pub mod Lifecycle
pub mod Skeptic
mod Tests
