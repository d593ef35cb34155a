-- ===== src/History/Buckets.antt =====
-- The periods and buckets of backend/app/domain/portfolio_history.py, and the timestamps of
-- backend/app/services/portfolio_history.py. A timedelta is a number of microseconds.
use assetlog.Prelude.{ℕ, zero, suc, ◌+◌, ◌-◌, ◌*◌, List, [], ◌∷◌, ltb, leb, if◌then◌else◌}
use assetlog.History.Rows.{AllTxRow}

pub data HistoryPeriod : Type 0 where
  one_day one_week one_month one_year all : HistoryPeriod

pub data HistoryBucket : Type 0 where
  five_min hour day week month : HistoryBucket

-- `PERIOD_BUCKET`
unfoldable pub period_bucket : HistoryPeriod → HistoryBucket
period_bucket one_day = five_min
period_bucket one_week = hour
period_bucket one_month = day
period_bucket one_year = week
period_bucket all = month

abbrev pub minutes : ℕ → ℕ
minutes n = n * 60_000_000

abbrev pub days : ℕ → ℕ
days n = n * 86_400_000_000

unfoldable pub bucket_to_timedelta : HistoryBucket → ℕ
bucket_to_timedelta five_min = minutes 5
bucket_to_timedelta hour = minutes 60
bucket_to_timedelta day = days 1
bucket_to_timedelta week = days 7
bucket_to_timedelta month = days 30

-- `min(txs, key=...)`, of a list that is not empty.
abbrev pub first_traded : AllTxRow → List AllTxRow → ℕ
first_traded tx [] = tx.traded_at
first_traded tx (other ∷ rest) =
    let later = first_traded other rest in if leb tx.traded_at later then tx.traded_at else later

unfoldable pub compute_start_dt : HistoryPeriod → ℕ → AllTxRow → List AllTxRow → ℕ
compute_start_dt all end_dt tx rest = first_traded tx rest
compute_start_dt one_day end_dt tx rest = end_dt - days 1
compute_start_dt one_week end_dt tx rest = end_dt - days 7
compute_start_dt one_month end_dt tx rest = end_dt - days 30
compute_start_dt one_year end_dt tx rest = end_dt - days 365

-- The loop, with a bound on its rounds; a loop that meets the bound has not ended, and gives none of
-- the boundaries after it.
unfoldable pub bucket_boundaries : ℕ → ℕ → ℕ → ℕ → List ℕ
bucket_boundaries zero current end delta = end ∷ []
bucket_boundaries (suc fuel) current end delta =
    let rest = bucket_boundaries fuel (current + delta) end delta in
    if ltb current end then current ∷ rest else end ∷ []

-- A round moves on by one microsecond at least.
unfoldable pub generate_bucket_timestamps : ℕ → ℕ → ℕ → List ℕ
unfolding bucket_boundaries
generate_bucket_timestamps start end delta = bucket_boundaries (end - start) start end delta
