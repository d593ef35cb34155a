-- ===== src/Db.antt =====
-- The tables of the backend (backend/app/models), the values that the services exchange, and the
-- request's session (backend/app/db/base.py).
--
-- A DECIMAL column is the integer number of its last digit's units: a quantity, Numeric(28, 10),
-- counts 10^-10; a price or a fee, Numeric(20, 6), counts 10^-6; an amount, Numeric(20, 8), counts
-- 10^-8. A datetime is the number of microseconds since 0001-01-01, in UTC.
mod Rows
mod Session
pub use Rows.*
pub use Session.{Error, Result, Action, Violation}
pub use Session.{
  ok, err, not_found, insufficient_holding, csv_import_validation, too_many_attempts,
  owner_password_not_configured, unauthorized, integrity,
}
pub use Session.{pure, raise, gets, modify, ◌>>=◌, ◌>>◌, raise_if, or_raise, bind-ok, bind-err}
unfoldable pub use Session.{get_db_session}
