-- ===== src/Prices.antt =====
-- The refresh of prices.
pub mod Service
pub mod Outcome
mod Tests
