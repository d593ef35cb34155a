-- ===== src/Risk/Heatmap.antt =====
-- backend/app/services/heatmap.py. A return is an exact fraction, and a month is counted from 1.
use assetlog.Prelude.{
  ℕ, zero, suc, ◌+◌, ◌-◌, ◌*◌, ◌/◌, ◌%◌, min, max, String, Bool, true, false, Option, none, some,
  List, [], ◌∷◌, ◌++◌, map, length, not, ltb, leb, ◌==◌, ◌&&◌, ◌||◌, if◌then◌else◌,
}
use assetlog.Prelude.Int.{ℤ, pos, ◌-ℤ◌, ◌+ℤ◌, ◌*ℤ◌, ltb_ℤ}
use assetlog.Prelude.Keyed.{Keyed, at_key_or, set_key}
use assetlog.Db.{Database}
use assetlog.Fx.Service.{FxStore}
use assetlog.History.Rows.{AllTxRow, PricePoint, list_all_transactions}
use assetlog.History.Buckets.{days}
use assetlog.Performance.Series.{ValuePoint}
use assetlog.Performance.Twr.{Ratio, quotient, one, one_plus, less_one, times}
use assetlog.Performance.Window.{days_before_year, begun_year}
use assetlog.Performance.Sampled.{sampled_series}
use assetlog.Performance.Service.{when_given}
use assetlog.Risk.Grid.{day_of, midnight}

pub record YearMonth : Type 0 where
  pub year : ℕ
  pub month : ℕ

pub record MonthlyReturn : Type 0 where
  pub year : ℕ
  pub month : ℕ
  pub return_pct : Option Ratio

abbrev pub is_leap : ℕ → Bool
is_leap year = (year % 4 == 0 && ltb 0 (year % 100)) || (year % 400 == 0)

-- `monthrange(year, month)[1]`
abbrev pub days_in_month : ℕ → ℕ → ℕ
days_in_month year month =
    if month == 2
    then (if is_leap year then 29 else 28)
    else if month == 4 || month == 6 || month == 9 || month == 11
    then 30
    else 31

-- The days of the year before a month; the month is one more than the argument.
unfoldable pub days_before_month : ℕ → ℕ → ℕ
days_before_month year zero = 0
days_before_month year (suc m) = days_before_month year m + days_in_month year (suc m)

-- The last month up to `m + 1` that has begun by a day of the year.
unfoldable pub begun_month : ℕ → ℕ → ℕ → ℕ
unfolding days_before_month
begun_month year zero day = 1
begun_month year (suc m) day =
    let before = begun_month year m day in
    if leb (days_before_month year (suc m)) day then suc (suc m) else before

unfoldable pub year_month : ℕ → YearMonth
unfolding begun_year begun_month
year_month at =
    let day = day_of at in
    let year = begun_year (day / 365 + 1) day in
    record { year = year; month = begun_month year 11 (day - days_before_year year) }

-- The first day of a month.
unfoldable pub month_start : YearMonth → ℕ
unfolding days_before_month
month_start ym = midnight (days_before_year ym.year + days_before_month ym.year (ym.month - 1))

unfoldable pub month_end : YearMonth → ℕ
unfolding month_start
month_end ym = month_start ym + midnight (days_in_month ym.year ym.month - 1)

abbrev pub next_month : YearMonth → YearMonth
next_month ym =
    if ym.month == 12
    then record { year = ym.year + 1; month = 1 }
    else record { year = ym.year; month = ym.month + 1 }

abbrev pub up_to : YearMonth → YearMonth → Bool
up_to a b = ltb a.year b.year || (a.year == b.year && leb a.month b.month)

-- The loop, with a bound on its rounds.
unfoldable pub months_from : ℕ → YearMonth → YearMonth → List YearMonth
months_from zero ym last = []
months_from (suc fuel) ym last =
    let rest = months_from fuel (next_month ym) last in if up_to ym last then ym ∷ rest else []

-- Twelve months for each year of the span, and the year that it ends in, suffice.
unfoldable pub months_between : ℕ → ℕ → List YearMonth
unfolding months_from year_month
months_between start end =
    let first = year_month start in
    let last = year_month end in
    if ltb end start then [] else months_from (12 * (last.year - first.year + 1) + 1) first last

abbrev pub no_return : YearMonth → MonthlyReturn
no_return ym = record { year = ym.year; month = ym.month; return_pct = none }

-- The loop over the months, each with its value and the one before.
unfoldable pub returns_of : ℤ → List ValuePoint → List YearMonth → List MonthlyReturn
unfolding ◌-ℤ◌
returns_of prev series [] = []
returns_of prev [] (ym ∷ months) = []
returns_of prev (vp ∷ series) (ym ∷ months) =
    record {
      year = ym.year;
      month = ym.month;
      return_pct =
          if ltb_ℤ (pos 0) prev && ltb_ℤ (pos 0) vp.value
          then some (less_one (quotient vp.value prev))
          else none;
    }
    ∷ returns_of vp.value series months

unfoldable pub monthly_returns_from_series : List ValuePoint → List YearMonth → List MonthlyReturn
unfolding returns_of
monthly_returns_from_series [] months = map no_return months
monthly_returns_from_series (vp ∷ series) months =
    if ltb (length series) 1 || not (length series == length months)
    then map no_return months
    else returns_of vp.value series months

-- `by_year` and `nulls_by_year`.
pub record Years : Type 0 where
  pub by_year : Keyed (List Ratio)
  pub nulls_by_year : Keyed Bool

abbrev pub add_return : ℕ → Option Ratio → Years → Years
add_return year none s = record {
  by_year = set_key year (at_key_or year [] s.by_year) s.by_year;
  nulls_by_year = set_key year true s.nulls_by_year;
}
add_return year (some r) s = record s {
  by_year = set_key year (at_key_or year [] s.by_year ++ r ∷ []) s.by_year;
}

unfoldable pub group_years : List MonthlyReturn → Years → Years
unfolding at_key_or set_key
group_years [] s = s
group_years (m ∷ months) s = group_years months (add_return m.year m.return_pct s)

unfoldable pub compounded : Ratio → List Ratio → Ratio
unfolding ◌+ℤ◌ ◌*ℤ◌
compounded compound [] = compound
compounded compound (r ∷ returns) = compounded (times compound (one_plus r)) returns

abbrev pub year_return : Bool → List Ratio → Option Ratio
year_return true returns = none
year_return false returns = some (less_one (compounded one returns))

unfoldable pub yearly_compound : List MonthlyReturn → Keyed (Option Ratio)
unfolding group_years compounded at_key_or ◌-ℤ◌
yearly_compound months =
    let years = group_years months (record { by_year = []; nulls_by_year = [] }) in
    map (λ (year, returns). (year, year_return (at_key_or year false years.nulls_by_year) returns))
      years.by_year

pub record Heatmap : Type 0 where
  pub start_date : ℕ
  pub months : List MonthlyReturn
  pub yearly_returns : Keyed (Option Ratio)
  pub warnings : List String

-- `timestamps`: the day before the first month, and each month's end, up to now.
abbrev pub sample_times : ℕ → ℕ → List YearMonth → List ℕ
sample_times start_dt end_dt [] = start_dt ∷ []
sample_times start_dt end_dt (ym ∷ months) =
    (month_start ym - days 1) ∷ map (λ m. min (month_end m) end_dt) (ym ∷ months)

abbrev pub of_rows : FxStore → List PricePoint → String → ℕ → ℕ → List AllTxRow → Heatmap
of_rows fx points currency start_dt end_dt [] = record {
  start_date = start_dt;
  months = [];
  yearly_returns = [];
  warnings = "no_activity_in_period" ∷ [];
}
of_rows fx points currency start_dt end_dt (tx ∷ txs) =
    let months = months_between start_dt end_dt in
    let (missing, series) =
      sampled_series fx points (tx ∷ txs) currency (sample_times start_dt end_dt months) in
    let monthly = monthly_returns_from_series series months in
    record {
      start_date = start_dt;
      months = monthly;
      yearly_returns = yearly_compound monthly;
      warnings = when_given missing "fx_rate_missing";
    }

unfoldable pub get_heatmap : String → ℕ → ℕ → List PricePoint → FxStore → Database → Heatmap
unfolding sampled_series months_between monthly_returns_from_series yearly_compound month_start
    month_end list_all_transactions year_month
get_heatmap currency years end_dt points fx db =
    let start_dt = month_start (year_month (end_dt - days (365 * max years 1))) in
    of_rows fx points currency start_dt end_dt (list_all_transactions db)
