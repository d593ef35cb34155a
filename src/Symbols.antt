-- ===== src/Symbols.antt =====
-- backend/app/repositories/asset_symbol.py and backend/app/services/symbol.py.
pub mod Text
pub mod Repo
pub mod Service
pub mod Pairwise
pub mod Unique
mod Tests
