-- ===== src/Auth/Tests.antt =====
-- Tests of sign-in, and each property at an input.
use assetlog.Prelude.{
  ℕ, ◌≤◌, ◌≡◌, refl, arith, min, String, Bool, false, none, some, List, [], ◌∷◌, filter, ◌==ₛ◌, inr,
}
use assetlog.Db.{Database, empty_database, ok, err, too_many_attempts}
use assetlog.Auth.Attempts.{is_failure, count_failures_since, get_last_failure, purge_older_than}
use assetlog.Auth.Limiter.{Limits, retry_after, check}
use assetlog.Auth.Lockout.{record_failures, check-record_failures, check-stale}
use assetlog.Auth.Requests.{Attempt, requests, requests-wrong}

-- The settings' defaults.
abbrev limits : Limits
limits = record { per_ip_max = 5; global_max = 50; per_ip_window = 600; global_window = 60 }

abbrev t0 : ℕ
t0 = 63_000_000_000_000_000

abbrev same_text : String → String → Bool
same_text password pw_hash = password ==ₛ pw_hash

abbrev five : List ℕ
five = t0 ∷ t0 ∷ t0 ∷ t0 ∷ t0 ∷ []

abbrev attacked : Database
attacked = record_failures "10.0.0.1" five empty_database

five_failures_block : check limits t0 "10.0.0.1" attacked ≡ (err (too_many_attempts 600), attacked)
unfolding check record_failures count_failures_since is_failure retry_after filter
five_failures_block = refl

backoff_steps :
    (retry_after limits 9 ≡ 600) × (retry_after limits 10 ≡ 1200) × (retry_after limits 1000 ≡ 3600)
unfolding retry_after
backoff_steps = (refl, refl, refl)

last_failure :
    get_last_failure none 0 (record_failures "a" (3 ∷ 9 ∷ 5 ∷ []) empty_database) ≡ some 9
unfolding get_last_failure record_failures filter
last_failure = refl

purged : (purge_older_than 5 (record_failures "a" (3 ∷ 9 ∷ 5 ∷ []) empty_database)).0 ≡ ok 1
unfolding purge_older_than record_failures filter
purged = refl

abbrev wrong : List Attempt
wrong =
    record { password = "a"; now = t0; later = t0 }
    ∷ record { password = "b"; now = t0; later = t0 }
    ∷ []

requests-wrong_example :
    requests same_text limits "secret" "10.0.0.1" wrong empty_database ≡ empty_database
requests-wrong_example =
    requests-wrong same_text limits "secret" "10.0.0.1" wrong empty_database (refl, (refl, tt))

check-record_failures_example :
    (r : ℕ) × (check limits t0 "10.0.0.1" attacked ≡ (err (too_many_attempts r), attacked))
    × (min 600 3600 ≤ r)
    × (r ≤ 3600)
check-record_failures_example =
    check-record_failures limits "10.0.0.1" t0 five empty_database (omega arith) (omega arith)

abbrev old_rows : Database
old_rows = record empty_database {
  login_attempts = record { ip = "a"; success = false; attempted_at = 5 } ∷ [];
}

check-stale_example : check limits t0 "a" old_rows ≡ (ok tt, old_rows)
check-stale_example =
    check-stale limits "a" t0 old_rows (omega arith) (omega arith) (inr (omega arith), tt)
      (inr (omega arith), tt)

first_check_passes : (check limits t0 "a" empty_database).0 ≡ ok tt
unfolding check count_failures_since filter
first_check_passes = refl
