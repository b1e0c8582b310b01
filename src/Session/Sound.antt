-- ===== src/Session/Sound.antt =====
-- The invariant of the stored review sessions of src/core/session/sessionStore.ts.
pub mod Predicate
pub mod Rules
pub mod Commit
pub mod Reading
pub mod Review
pub mod Execution
pub mod Handoff
pub mod Apart
pub mod Requests
