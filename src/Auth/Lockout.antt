-- ===== src/Auth/Lockout.antt =====
-- When `LoginRateLimiter.check` blocks, and when it lets a client in again.
use assetlog.Prelude.{
  ℕ, ◌+◌, ◌-◌, ◌≤◌, ◌<◌, ◌≡◌, ◌⊎◌, ◌↔◌, refl, min, String, true, false, Option, some, none, List,
  [], ◌∷◌, length, filter, All, arith,
}
use text.Mathlib.TextPositions.{eq_refl}
use assetlog.Db.{Database, LoginAttempt, ok, err, too_many_attempts}
use assetlog.Auth.Attempts.{is_failure, count_failures_since, purge_older_than}
use assetlog.Auth.Limiter.{Limits, seconds, retry_after, check, record_failure, record_success}
use assetlog.Auth.Service.{login_attempt_cleanup_job, days}
use assetlog.Auth.Counting.{count-record_attempt, count-purge_older_than}
use assetlog.Auth.Backoff.{retry_after_bounds}

-- The failed attempts of one client, at the given times.
unfoldable pub record_failures : String → List ℕ → Database → Database
unfolding record_failure
record_failures ip [] db = db
record_failures ip (t ∷ times) db = record_failures ip times (record_failure ip t db).1

count-record_failure :
    (ip : String) (since t : ℕ) (db : Database)
    → since ≤ t
    → count_failures_since (some ip) since (record_failure ip t db).1
      ≡ count_failures_since (some ip) since db + 1
unfolding record_failure is_failure
count-record_failure ip since t db h =
    rw (count-record_attempt (some ip) since ip false t db) (ground (arith, eq_refl ip))

count-record_failures :
    (ip : String) (since : ℕ) (times : List ℕ) (db : Database)
    → All (λ t. since ≤ t) times
    → count_failures_since (some ip) since (record_failures ip times db)
      ≡ count_failures_since (some ip) since db + length times
unfolding record_failures
count-record_failures ip since [] db h = omega arith
count-record_failures ip since (t ∷ times) db h = omega (
  arith,
  count-record_failures ip since times (record_failure ip t db).1 h.1,
  count-record_failure ip since t db h.0,
)

-- After as many failures of one client as the limit, all in the window, the client is refused with
-- a wait of at most an hour and at least the window (or an hour). The table is left as it was.
pub check-record_failures :
    (l : Limits) (ip : String) (now : ℕ) (times : List ℕ) (db : Database)
    → l.per_ip_max ≤ length times
    → All (λ t. now - seconds l.per_ip_window ≤ t) times
    → let after = record_failures ip times db in
      (r : ℕ) × (check l now ip after ≡ (err (too_many_attempts r), after))
      × (min l.per_ip_window 3600 ≤ r)
      × (r ≤ 3600)
unfolding check
check-record_failures l ip now times db enough recent =
    let after = record_failures ip times db in
    let since = now - seconds l.per_ip_window in
    let failures = count_failures_since (some ip) since after in
    let bounds = retry_after_bounds l failures in
    (
      retry_after l failures,
      ground (arith, count-record_failures ip since times db recent),
      bounds.0,
      bounds.1,
    )

filter-stale :
    (q : Option String) (since : ℕ) (rows : List LoginAttempt)
    → All (λ (a : LoginAttempt). (a.success ≡ true) ⊎ (a.attempted_at < since)) rows
    → length (filter (is_failure q since) rows) ≡ 0
unfolding filter is_failure
filter-stale q since [] h = refl
filter-stale q since (a ∷ rows) h = ground (arith, filter-stale q since rows h.1)

-- If every failure is older than both windows, every client is let in.
pub check-stale :
    (l : Limits) (ip : String) (now : ℕ) (db : Database)
    → 0 < l.per_ip_max
    → 0 < l.global_max
    → All
        (λ (a : LoginAttempt).
          (a.success ≡ true) ⊎ (a.attempted_at < now - seconds l.per_ip_window))
        db.login_attempts
    → All
        (λ (a : LoginAttempt).
          (a.success ≡ true) ⊎ (a.attempted_at < now - seconds l.global_window))
        db.login_attempts
    → check l now ip db ≡ (ok tt, db)
unfolding check count_failures_since
check-stale l ip now db p g old_ip old_all = ground (
  arith,
  filter-stale (some ip) (now - seconds l.per_ip_window) db.login_attempts old_ip,
  filter-stale none (now - seconds l.global_window) db.login_attempts old_all,
)

-- A check passes exactly if both counts are below their limits, and it never writes.
pub check_passes :
    (l : Limits) (ip : String) (now : ℕ) (db : Database)
    → (((check l now ip db).0 ≡ ok tt) ↔ (
        (count_failures_since (some ip) (now - seconds l.per_ip_window) db < l.per_ip_max)
        × (count_failures_since none (now - seconds l.global_window) db < l.global_max)))
      × ((check l now ip db).1 ≡ db)
unfolding check
check_passes l ip now db = ground arith

-- Two databases with the same counts give the same verdict.
check-verdict :
    (l : Limits) (ip : String) (now : ℕ) (db db' : Database)
    → count_failures_since (some ip) (now - seconds l.per_ip_window) db'
      ≡ count_failures_since (some ip) (now - seconds l.per_ip_window) db
    → count_failures_since none (now - seconds l.global_window) db'
      ≡ count_failures_since none (now - seconds l.global_window) db
    → (check l now ip db').0 ≡ (check l now ip db).0
unfolding check
check-verdict l ip now db db' p g = ground arith

-- The cleanup job, if it keeps at least both windows, changes the verdict on no client, then or later.
pub check-login_attempt_cleanup_job :
    (l : Limits) (ip : String) (retention_days at now : ℕ) (db : Database)
    → at ≤ now
    → seconds l.per_ip_window ≤ days retention_days
    → seconds l.global_window ≤ days retention_days
    → (check l now ip (login_attempt_cleanup_job retention_days at db).1).0 ≡ (check l now ip db).0
unfolding login_attempt_cleanup_job
check-login_attempt_cleanup_job l ip retention_days at now db le p g =
    check-verdict l ip now db (purge_older_than (at - days retention_days) db).1
      (count-purge_older_than (some ip) _ (at - days retention_days) db (omega arith))
      (count-purge_older_than none _ (at - days retention_days) db (omega arith))

count-record_success :
    (q : Option String) (since t : ℕ) (ip : String) (db : Database)
    → count_failures_since q since (record_success ip t db).1 ≡ count_failures_since q since db
unfolding record_success is_failure
count-record_success q since t ip db = rw (count-record_attempt q since ip true t db) (omega arith)

-- A successful sign-in changes the verdict on no client: it neither clears nor adds failures.
pub check-record_success :
    (l : Limits) (ip other : String) (t now : ℕ) (db : Database)
    → (check l now ip (record_success other t db).1).0 ≡ (check l now ip db).0
check-record_success l ip other t now db =
    check-verdict l ip now db (record_success other t db).1
      (count-record_success (some ip) _ t other db) (count-record_success none _ t other db)
