-- ===== src/Numeric.antt =====
-- Raw amounts as decimal texts: src/core/numeric/rawU64.ts, with what JavaScript's `BigInt` and
-- `toString` do on unsigned decimal texts.
pub mod Text
pub mod RawU64
pub mod Scalar
pub mod Examples
