-- ===== src/Payload.antt =====
-- apps/edge/src/lib/dispatch-payload-sanitize.ts: JSON values and the redaction of IP addresses.
-- A number is never looked at, so any number stands for itself.
pub mod Json
pub mod Sanitize
pub mod Clean
mod Tests
