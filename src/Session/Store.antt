-- ===== src/Session/Store.antt =====
-- The review-session store: `LocalSessionStore` of src/core/session/sessionStore.ts.
pub mod Commit
pub mod Private
pub mod Reading
pub mod Review
pub mod Execution
pub mod Pending
pub mod Handoff
