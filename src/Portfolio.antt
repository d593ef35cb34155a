-- ===== src/Portfolio.antt =====
-- The holdings of the portfolio and the summary of one asset.
pub mod Holdings
pub mod Grouped
pub mod Agreement
pub mod Split
mod Tests
