-- ===== src/Guards.antt =====
-- What apps/edge does to an event or a request before anything else: event-time-clamp.ts,
-- replay-protection.ts and idempotency.ts of apps/edge/src/lib, and apps/edge/src/middleware/rate-limit.ts.
pub mod EventTime
pub mod Seen
pub mod RateLimit
pub mod Windows
mod Tests
