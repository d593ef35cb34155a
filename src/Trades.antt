-- ===== src/Trades.antt =====
-- Transactions of one asset: the repository and the service over it.
mod Repo
mod Timeline
mod Service
pub mod Rows
pub mod Holdings
pub mod Balance
pub mod Writes
pub mod Removal
pub mod Keys
pub mod Imports
mod Tests
pub use Repo.{TransactionData}
unfoldable pub use Repo.{
  is_of, create, list_for_user_asset, list_all_for_user_asset, get_summary, get_remaining_quantity,
  get_by_id_for_user_asset, update, delete_by_id_for_user_asset, get_user_asset, bought, sold,
  of_data, chronological,
}
pub use Timeline.{Proxy}
unfoldable pub use Timeline.{signed, first_negative, by_time, of_existing, of_data_row, add_all}
unfoldable pub use Service.{add, list_page, edit, remove, import_rows}
