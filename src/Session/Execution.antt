-- ===== src/Session/Execution.antt =====
-- What a recorded execution result continues: `recordExecutionResult` and
-- `recordChainExecutionResult` of src/core/session/sessionStore.ts.
pub mod Steps
pub mod Page
pub mod Chain
