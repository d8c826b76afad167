-- ===== src/Data.antt =====
-- The sources of messages: runtime/plaid/src/data.
pub mod Internal
pub mod Selector
pub mod Interval
pub mod Generator
mod Tests
