-- ===== src/Session/Wallet.antt =====
-- Wallet identity sessions: src/core/session/walletIdentity.ts, walletIdentityStatusContract.ts
-- and walletIdentitySessions.ts.
pub mod Data
pub mod Manager
pub mod Lifecycle
