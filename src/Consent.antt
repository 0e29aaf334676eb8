-- ===== src/Consent.antt =====
-- apps/edge/src/lib/consent.ts: what a lead has consented to.
pub mod Records
pub mod Effective
mod Tests
