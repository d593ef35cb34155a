-- ===== src/Auth.antt =====
-- Sign-in: the audit table of attempts, the rate limiter over it, the service that checks the owner's
-- password, the request around it, and the job that purges old attempts.
mod Attempts
mod Limiter
mod Service
pub mod Counting
pub mod Backoff
pub mod Lockout
pub mod Requests
mod Tests
unfoldable pub use Attempts.{
  record_attempt, is_failure, count_failures_since, get_last_failure, purge_older_than,
}
unfoldable pub use Limiter.{retry_after, check, record_failure, record_success}
unfoldable pub use Service.{verified, authenticate, login, login_attempt_cleanup_job}
pub use Limiter.{Limits, seconds}
