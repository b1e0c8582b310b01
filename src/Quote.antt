-- ===== src/Quote.antt =====
-- Quote policies of the swap adapters (src/adapters/deepbook/deepbookQuotePolicy.ts and
-- src/adapters/flowx/flowxSwapQuotePolicy.ts) and the evidence that records them
-- (src/core/action/swapQuotePolicyEvidence.ts).
pub mod Policy
pub mod Deepbook
pub mod Flowx
pub mod Bounds
pub mod Refresh
pub mod Agreement
pub mod Contract
pub mod Evidence
pub mod Examples
