-- ===== src/Auth/Limiter.antt =====
-- backend/app/services/login_rate_limiter.py. The clock's reading is an argument of each call.
use assetlog.Prelude.{ℕ, ◌-◌, ◌*◌, ◌/◌, ◌^◌, min, String, true, false, none, some, leb}
use assetlog.Db.{Action, gets, ◌>>=◌, ◌>>◌, raise_if, too_many_attempts}
use assetlog.Auth.Attempts.{record_attempt, count_failures_since}

-- The arguments of `LoginRateLimiter`; the windows are in seconds.
pub record Limits : Type 0 where
  pub per_ip_max : ℕ
  pub global_max : ℕ
  pub per_ip_window : ℕ
  pub global_window : ℕ

-- `timedelta(seconds=n)`
abbrev pub seconds : ℕ → ℕ
seconds n = n * 1_000_000

-- The progressive backoff of `check`, in seconds.
unfoldable pub retry_after : Limits → ℕ → ℕ
retry_after l failures =
    let excess = failures - l.per_ip_max in
    let multiplier = min (2 ^ (excess / 5)) 64 in min (l.per_ip_window * multiplier) 3600

unfoldable pub check : Limits → ℕ → String → Action (Unit {0})
check l now ip = do
  failures ← gets (count_failures_since (some ip) (now - seconds l.per_ip_window))
  raise_if (leb l.per_ip_max failures) (too_many_attempts (retry_after l failures))
  global_failures ← gets (count_failures_since none (now - seconds l.global_window))
  raise_if (leb l.global_max global_failures) (too_many_attempts l.global_window)

unfoldable pub record_failure : String → ℕ → Action (Unit {0})
unfolding record_attempt
record_failure ip when = record_attempt ip false when

unfoldable pub record_success : String → ℕ → Action (Unit {0})
unfolding record_attempt
record_success ip when = record_attempt ip true when
