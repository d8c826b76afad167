-- ===== src/Loader.antt =====
-- How modules are loaded: runtime/plaid/src/loader.
pub mod Limits
pub mod Signers
pub mod Signing
pub mod Accessory
pub mod Load
pub mod Channels
pub mod Configured
pub mod Accepted
pub mod Loaded
mod Tests
