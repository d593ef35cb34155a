-- ===== src/Dividends.antt =====
-- backend/app/repositories/dividend.py and backend/app/services/dividend.py.
pub mod Repo
pub mod Service
pub mod Dates
pub mod Again
mod Tests
