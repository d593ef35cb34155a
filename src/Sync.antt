-- ===== src/Sync.antt =====
-- Imports of exchange histories and broker statements.
pub mod Records
pub mod Symbols
pub mod Trades
pub mod Steps
pub mod Lookup
pub mod Dedup
pub mod Imports
pub mod Replacing
pub mod CashTxs
pub mod Collapse
mod Tests
