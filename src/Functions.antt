-- ===== src/Functions.antt =====
-- The host functions: runtime/plaid/src/functions.
pub mod Stays
pub mod Storage
pub mod Logback
pub mod Message
pub mod Cache
pub mod Api
pub mod Run
mod Tests
