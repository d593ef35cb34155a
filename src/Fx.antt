-- ===== src/Fx.antt =====
-- Exchange rates: the cached rate of each currency pair and the series of its snapshots.
pub mod Rates
pub mod Snapshots
pub mod Service
pub mod Refresh
pub mod Unique
pub mod TradeDate
pub mod Nearest
pub mod Batch
mod Tests
