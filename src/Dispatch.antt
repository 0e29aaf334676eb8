-- ===== src/Dispatch.antt =====
-- apps/edge/src/lib/dispatch.ts: the life of the dispatch jobs and of their attempts.
mod Types
pub mod Keys
pub mod Backoff
pub mod Create
pub mod Process
pub mod Rows
pub mod Lifecycle
pub mod Processing
pub mod Retries
pub mod Exclusion
pub mod Requeue
pub mod Attempts
pub mod Uniqueness
pub mod Separation
pub mod OnePerDelivery
pub mod Blank
pub mod Skips
pub mod DeadLetter
mod Tests
pub use Types.*
