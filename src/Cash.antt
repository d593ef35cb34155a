-- ===== src/Cash.antt =====
-- Cash balances out of the cash, trade and dividend rows, and their reconciliation.
mod Rows
mod Flow
mod Reconcile
pub mod Totals
pub mod Sources
pub mod Manual
pub mod Rounding
pub mod OneRow
pub mod Pinned
mod Tests
unfoldable pub use Flow.{net_cash_by_currency, net_cash_by_source_and_currency}
pub mod Accounts
pub mod AccountMap
