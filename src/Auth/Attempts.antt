-- ===== src/Auth/Attempts.antt =====
-- backend/app/repositories/login_attempt.py. Datetimes are microseconds, as in `Db`.
use assetlog.Prelude.{
  ℕ, String, Bool, true, ◌&&◌, not, Option, none, some, List, [], ◌∷◌, ◌++◌, length, filter, leb,
  ltb, ◌==ₛ◌,
}
use assetlog.Prelude.Sorting.{sort}
use assetlog.Db.{Database, LoginAttempt, Action, ok}

-- `LoginAttemptRepository.record`
unfoldable pub record_attempt : String → Bool → ℕ → Action (Unit {0})
record_attempt ip success attempted_at db = (
  ok tt,
  record db {
    login_attempts =
        db.login_attempts
        ++ record { ip = ip; success = success; attempted_at = attempted_at } ∷ [];
  },
)

abbrev pub of_ip : Option String → LoginAttempt → Bool
of_ip none a = true
of_ip (some ip) a = a.ip ==ₛ ip

-- The `where` of both queries.
unfoldable pub is_failure : Option String → ℕ → LoginAttempt → Bool
is_failure ip since a = not a.success && (leb since a.attempted_at && of_ip ip a)

unfoldable pub count_failures_since : Option String → ℕ → Database → ℕ
count_failures_since ip since db = length (filter (is_failure ip since) db.login_attempts)

abbrev later_first : LoginAttempt → LoginAttempt → Bool
later_first a b = leb b.attempted_at a.attempted_at

abbrev first_time : List LoginAttempt → Option ℕ
first_time [] = none
first_time (a ∷ rest) = some a.attempted_at

unfoldable pub get_last_failure : Option String → ℕ → Database → Option ℕ
unfolding sort is_failure
get_last_failure ip since db =
    first_time (sort later_first (filter (is_failure ip since) db.login_attempts))

unfoldable pub purge_older_than : ℕ → Action ℕ
purge_older_than cutoff db = (
  ok (length (filter (λ a. ltb a.attempted_at cutoff) db.login_attempts)),
  record db { login_attempts = filter (λ a. not (ltb a.attempted_at cutoff)) db.login_attempts },
)
