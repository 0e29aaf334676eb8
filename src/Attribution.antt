-- ===== src/Attribution.antt =====
-- apps/edge/src/lib/attribution.ts: the first, the last and all touches of a lead in a launch.
pub mod Types
pub mod Touches
pub mod Laws
pub mod History
mod Tests
