-- ===== src/Auth/Counting.antt =====
-- How each write to the table of attempts changes a count of failures.
use assetlog.Prelude.{
  ℕ, ◌+◌, ◌≤◌, ◌≡◌, refl, ap, String, Bool, not, Option, some, none, List, [], ◌∷◌, length, filter,
  arith, ltb, if◌then◌else◌, length-append, filter-append,
}
use assetlog.Db.{Database, LoginAttempt}
use assetlog.Auth.Attempts.{record_attempt, is_failure, count_failures_since, purge_older_than}

-- One more row is counted exactly if it is a failure of the query.
pub count-record_attempt :
    (q : Option String) (since : ℕ) (ip : String) (success : Bool) (at : ℕ) (db : Database)
    → count_failures_since q since (record_attempt ip success at db).1
      ≡ count_failures_since q since db
        + (if is_failure q since (record { ip = ip; success = success; attempted_at = at })
            then 1
            else 0)
unfolding count_failures_since record_attempt filter
count-record_attempt q since ip success at db =
    rw (filter-append (is_failure q since) db.login_attempts _, length-append) (ground arith)

-- A window that starts after the cutoff does not see the purge.
filter-purge :
    (q : Option String) (since cutoff : ℕ) (rows : List LoginAttempt)
    → cutoff ≤ since
    → filter (is_failure q since) (filter (λ a. not (ltb a.attempted_at cutoff)) rows)
      ≡ filter (is_failure q since) rows
unfolding filter is_failure
filter-purge q since cutoff [] h = refl
filter-purge q since cutoff (a ∷ rows) h = ground (arith, filter-purge q since cutoff rows h)

pub count-purge_older_than :
    (q : Option String) (since cutoff : ℕ) (db : Database)
    → cutoff ≤ since
    → count_failures_since q since (purge_older_than cutoff db).1 ≡ count_failures_since q since db
unfolding count_failures_since purge_older_than
count-purge_older_than q since cutoff db h =
    ap length (filter-purge q since cutoff db.login_attempts h)

-- The failures of one address are among those of all.
filter-of_ip-le :
    (ip : String) (since : ℕ) (rows : List LoginAttempt)
    → length (filter (is_failure (some ip) since) rows)
      ≤ length (filter (is_failure none since) rows)
unfolding filter is_failure
filter-of_ip-le ip since [] = omega arith
filter-of_ip-le ip since (a ∷ rows) = ground (arith, filter-of_ip-le ip since rows)

pub count-of_ip-le :
    (ip : String) (since : ℕ) (db : Database)
    → count_failures_since (some ip) since db ≤ count_failures_since none since db
unfolding count_failures_since
count-of_ip-le ip since db = filter-of_ip-le ip since db.login_attempts

-- A later start of the window counts no more.
filter-since-le :
    (q : Option String) (since later : ℕ) (rows : List LoginAttempt)
    → since ≤ later
    → length (filter (is_failure q later) rows) ≤ length (filter (is_failure q since) rows)
unfolding filter is_failure
filter-since-le q since later [] h = omega arith
filter-since-le q since later (a ∷ rows) h = ground (arith, filter-since-le q since later rows h)

pub count-since-le :
    (q : Option String) (since later : ℕ) (db : Database)
    → since ≤ later
    → count_failures_since q later db ≤ count_failures_since q since db
unfolding count_failures_since
count-since-le q since later db h = filter-since-le q since later db.login_attempts h
