-- ===== src/Lifecycle.antt =====
-- apps/edge/src/lib/lifecycle-rules.ts and lifecycle-promoter.ts: how far a lead has come.
pub mod Rules
pub mod Promoter
pub mod Order
pub mod Promotion
mod Tests
