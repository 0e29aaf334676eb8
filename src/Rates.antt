-- ===== src/Rates.antt =====
-- apps/edge/src/lib/fx.ts with apps/edge/src/integrations/fx-rates/cache.ts: exchange rates by a cache,
-- a provider that is tried again, and the last known rate.
pub mod Cache
pub mod Lookup
pub mod Answers
mod Tests
