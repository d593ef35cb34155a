-- ===== src/Performance/Window.antt =====
-- `_compute_window` of backend/app/services/performance.py and the enumerations of
-- backend/app/domain/performance.py. A year is one of the Gregorian calendar, as Python's datetime
-- has it.
use assetlog.Prelude.{ℕ, zero, suc, ◌+◌, ◌-◌, ◌*◌, ◌/◌, List, [], ◌∷◌, leb, if◌then◌else◌}
use assetlog.History.Rows.{AllTxRow}
use assetlog.History.Buckets.{days, first_traded}

pub data PerformancePeriod : Type 0 where
  one_week one_month three_months six_months one_year ytd all : PerformancePeriod

pub data PerformanceMethod : Type 0 where
  twr mwr both : PerformanceMethod

-- The days before a year, from the first day of the year 1.
abbrev pub days_before_year : ℕ → ℕ
days_before_year year = let n : ℕ = year - 1 in 365 * n + n / 4 - n / 100 + n / 400

-- The last year up to `n` that has begun by a day.
unfoldable pub begun_year : ℕ → ℕ → ℕ
begun_year zero day = zero
begun_year (suc n) day =
    let before = begun_year n day in if leb (days_before_year (suc n)) day then suc n else before

-- `datetime(end_utc.year, 1, 1)`
unfoldable pub year_start : ℕ → ℕ
unfolding begun_year
year_start at =
    let day = at / 86_400_000_000 in days (days_before_year (begun_year (day / 365 + 1) day))

unfoldable pub start_of : PerformancePeriod → ℕ → List AllTxRow → ℕ
unfolding year_start
start_of one_week end_dt txs = end_dt - days 7
start_of one_month end_dt txs = end_dt - days 30
start_of three_months end_dt txs = end_dt - days 90
start_of six_months end_dt txs = end_dt - days 180
start_of one_year end_dt txs = end_dt - days 365
start_of ytd end_dt txs = year_start end_dt
start_of all end_dt [] = end_dt - days 30
start_of all end_dt (tx ∷ rest) = first_traded tx rest
