-- ===== src/Identity.antt =====
-- apps/edge/src/lib/lead-resolver.ts: one person's identifiers, and the lead they belong to.
pub mod Types
pub mod Normalize
pub mod Phone
pub mod Spellings
pub mod Hashing
pub mod Resolver
pub mod Merging
pub mod Insertions
pub mod Evolution
pub mod Safety
pub mod Ownership
pub mod Additions
pub mod Settling
pub mod Resolution
mod Tests
