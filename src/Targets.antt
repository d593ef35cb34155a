-- ===== src/Targets.antt =====
-- The owner's target weights, and the moves that would reach them.
pub mod Entries
pub mod Rebalance
pub mod RoundTrip
mod Tests
