-- ===== src/Session/Handoff.antt =====
-- What a prepared wallet handoff stands on: `prepareWalletHandoff` and `gateWalletHandoff` of
-- src/core/session/sessionStore.ts.
pub mod Release
pub mod Gate
