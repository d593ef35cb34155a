-- ===== src/Upbit.antt =====
-- The read-only adapter of an Upbit account.
pub mod Raw
pub mod Orders
pub mod Balances
pub mod Cash
pub mod Once
pub mod Adjusted
pub mod Pages
mod Tests
