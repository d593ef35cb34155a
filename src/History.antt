-- ===== src/History.antt =====
-- The value of the portfolio over time, from its transactions and its price points.
pub mod Buckets
pub mod Rows
pub mod Points
pub mod Timestamps
pub mod Pointer
pub mod Quantities
pub mod Values
pub mod SinglePass
mod Tests
