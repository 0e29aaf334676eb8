-- ===== src/Audience.antt =====
-- apps/edge/src/lib/audience.ts, with the cron and the consumer of apps/edge/src/crons/audience-sync.ts
-- and apps/edge/src/dispatchers/audience-sync: which leads an audience has, its snapshots, and the
-- jobs that bring a platform to them.
pub mod Types
pub mod Schema
pub mod Evaluate
pub mod Snapshots
pub mod Jobs
pub mod Cron
pub mod Retention
pub mod Satisfaction
pub mod Membership
pub mod Planning
pub mod Growth
pub mod Currency
pub mod Runs
pub mod Losses
mod Tests
