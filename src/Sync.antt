-- ===== src/Sync.antt =====
-- apps/edge/src/dispatchers/audience-sync: the consumer of the jobs that bring a platform to the
-- members of an audience.
pub mod Client
pub mod Batches
pub mod Store
pub mod Process
pub mod Outcomes
pub mod Accepted
pub mod Sending
mod Tests
