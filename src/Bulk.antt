-- ===== src/Bulk.antt =====
-- The bulk import of transactions of several assets.
mod Service
pub mod Balance
pub mod Imports
mod Tests
