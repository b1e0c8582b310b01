-- ===== src/Session.antt =====
-- Local sessions: src/core/session.
pub mod Types
pub mod Errors
pub mod Material
pub mod Artifacts
pub mod Status
pub mod Wallet
pub mod World
pub mod Inversion
pub mod Records
pub mod Store
pub mod Settings
pub mod Sound
pub mod Finalization
pub mod Wait
pub mod Handoff
pub mod Execution
pub mod Fixtures
pub mod Examples
pub mod Sqlite
