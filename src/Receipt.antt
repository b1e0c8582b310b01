-- ===== src/Receipt.antt =====
-- The verifier of chain receipts: src/core/action/suiChainReceiptVerifier.ts,
-- suiChainReceiptMapping.ts, suiChainReceiptEvidence.ts and forbiddenFields.ts.
pub mod Chain
pub mod Mapping
pub mod NotFound
pub mod Forbidden
pub mod Evidence
pub mod Document
pub mod Verifier
pub mod Finalization
pub mod Examples
