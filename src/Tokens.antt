-- ===== src/Tokens.antt =====
-- apps/edge/src/lib/lead-token.ts: the token by which a browser is known as a lead again.
pub mod Encoding
pub mod Claims
pub mod Signing
pub mod Stored
pub mod Validity
mod Tests
