-- ===== src/Activity.antt =====
-- Facts about account activity that are computed without the network: src/core/activity.
pub mod Effects
pub mod Flows
pub mod Coverage
pub mod Stream
pub mod Examples
