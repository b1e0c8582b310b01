-- ===== src/Session/Material.antt =====
-- Local transaction material: src/core/session/transactionMaterialStore.ts. The in-memory store
-- is a `Map` from material ids to records; `randomUUID()` is the argument `uuid`.
pub mod Data
pub mod Store
pub mod Verify
pub mod Lifetime
pub mod Trust
