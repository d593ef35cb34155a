-- ===== src/Risk/Tests.antt =====
-- Tests of the risk figures, the benchmarks and the heatmap, and each property at an input.
use assetlog.Prelude.{
  ℕ, ◌≡◌, refl, none, some, List, [], ◌∷◌, filter, any, map, arith, suc, ◌-◌, ◌+◌, ltb,
  if◌then◌else◌,
}
use assetlog.Prelude.Int.{pos}
use assetlog.Prelude.Keyed.{at_key}
use assetlog.Prelude.Sorting.{sort}
use assetlog.History.Rows.{Price, PricePoint, by_time}
use assetlog.History.Buckets.{days}
use assetlog.Db.{Database, empty_database, us_stock, buy}
use assetlog.Trades.{of_data}
use assetlog.Performance.Series.{ValuePoint}
use assetlog.Risk.Drawdown.{is_sample, max_drawdown}
use assetlog.Risk.Worst.{Worst, max_drawdown_lem}
use assetlog.Risk.Grid.{day_of, midnight, days_until, midnights, daily_grid, daily_grid_lem}
use assetlog.Risk.Benchmark.{benchmark_to_returns, to_cumulative_returns}
use assetlog.Risk.Closes.{close_at, benchmark_to_returns-each_time}
use assetlog.Risk.Heatmap.{
  YearMonth, MonthlyReturn, year_month, month_end, months_between, get_heatmap,
  monthly_returns_from_series, yearly_compound,
}
use assetlog.Risk.Growth.{growth_less_one}
use assetlog.Risk.Years.{of_year, gap_in, returns_in, yearly_compound_lem}

abbrev point : ℕ → ℕ → ValuePoint
point at v = record { timestamp = at; value = pos v }

abbrev up_and_down : List ValuePoint
up_and_down = point 1 0 ∷ point 2 10 ∷ point 3 8 ∷ point 4 20 ∷ point 5 15 ∷ point 6 18 ∷ []

a_quarter : max_drawdown up_and_down ≡ (some (record { fall = 5; peak = 20 }), some 5)
unfolding max_drawdown
a_quarter = refl

one_sample : max_drawdown (point 1 0 ∷ point 2 10 ∷ []) ≡ (none, none)
unfolding max_drawdown
one_sample = refl

max_drawdown_lem_example : Worst (filter is_sample up_and_down) (max_drawdown up_and_down)
max_drawdown_lem_example = max_drawdown_lem up_and_down

abbrev three_days : ℕ
three_days = 259_200_000_000

four_midnights : daily_grid 5 (three_days + 7) ≡ midnights 0 3
unfolding daily_grid midnights
four_midnights = refl

daily_grid_lem_example :
    let s = day_of 5 in
    let e = day_of (three_days + 7) in
    (daily_grid 5 (three_days + 7)
      ≡ (if ltb s e then midnights s (e - s) else midnight s ∷ midnight e ∷ []))
    × (days_until (suc (e - s + 4)) (midnight s) (midnight (s + (e - s))) ≡ midnights s (e - s))
daily_grid_lem_example = daily_grid_lem 5 (three_days + 7) 4

abbrev price : ℕ → ℕ → Price
price at p = record { at = at; price = p }

abbrev closes : List Price
closes = price 4 10 ∷ price 2 8 ∷ price 7 12 ∷ []

-- 8 is the base; 10 is a quarter more.
sampled_closes :
    benchmark_to_returns closes (1 ∷ 3 ∷ 5 ∷ [])
    ≡ record { timestamp = 1; cumulative_return = record { num = pos 0; den = 1 } }
      ∷ record { timestamp = 3; cumulative_return = record { num = pos 0; den = 1 } }
      ∷ record { timestamp = 5; cumulative_return = record { num = pos 2; den = 8 } }
      ∷ []
unfolding benchmark_to_returns
sampled_closes = refl

benchmark_to_returns-each_time_example :
    benchmark_to_returns closes (1 ∷ 3 ∷ 5 ∷ [])
    ≡ to_cumulative_returns (map (close_at none (sort by_time closes)) (1 ∷ 3 ∷ 5 ∷ []))
benchmark_to_returns-each_time_example =
    benchmark_to_returns-each_time closes (1 ∷ 3 ∷ 5 ∷ []) (omega arith)

-- 29 February 2024, at noon.
abbrev leap_day : ℕ
leap_day = 63_844_804_800_000_000

in_february : year_month leap_day ≡ record { year = 2024; month = 2 }
unfolding year_month
in_february = refl

its_month_end : month_end (record { year = 2024; month = 2 }) ≡ leap_day - 43_200_000_000
unfolding month_end
its_month_end = refl

two_months :
    months_between leap_day (leap_day + three_days)
    ≡ record { year = 2024; month = 2 } ∷ record { year = 2024; month = 3 } ∷ []
unfolding months_between
two_months = refl

abbrev month : ℕ → ℕ → YearMonth
month y m = record { year = y; month = m }

abbrev winter : List MonthlyReturn
winter =
    monthly_returns_from_series (point 1 10 ∷ point 2 15 ∷ point 3 12 ∷ point 4 0 ∷ [])
      (month 2023 12 ∷ month 2024 1 ∷ month 2024 2 ∷ [])

-- February ends with nothing, so the year 2024 has no return.
no_year : at_key 2024 (yearly_compound winter) ≡ some none
unfolding yearly_compound monthly_returns_from_series at_key
no_year = refl

-- 10 percent and then 20 percent are 32 percent.
two_gains :
    at_key 2023 (
      yearly_compound (
        record { year = 2023; month = 1; return_pct = some (record { num = pos 1; den = 10 }) }
        ∷ record { year = 2023; month = 2; return_pct = some (record { num = pos 2; den = 10 }) }
        ∷ []))
    ≡ some (some (record { num = pos 32; den = 100 }))
unfolding yearly_compound at_key
two_gains = refl

yearly_compound_lem_example : at_key 2023 (yearly_compound winter) ≡ (
    if any (of_year 2023) winter
    then some
        (if any (gap_in 2023) winter then none else some (growth_less_one (returns_in 2023 winter)))
    else none)
yearly_compound_lem_example = yearly_compound_lem 2023 winter

-- A share bought on 20 December 2023, with a price before February 2024 and one in it.
abbrev one_share : Database
one_share = record empty_database {
  user_assets = record { id = 7; asset_symbol_id = 1 } ∷ [];
  asset_symbols =
      record {
        id = 1;
        asset_type = us_stock;
        symbol = "AAPL";
        exchange = "NASDAQ";
        name = "Apple";
        currency = "USD";
      }
      ∷ [];
  transactions =
      of_data 1 7 (record {
        type = buy;
        quantity = pos 1;
        price = pos 90;
        traded_at = leap_day - days 71;
        memo = none;
        tag = none;
      })
      ∷ [];
  next_transaction = 2;
}

abbrev two_prices : List PricePoint
two_prices =
    record { asset_symbol_id = 1; fetched_at = leap_day - days 40; price = 100 }
    ∷ record { asset_symbol_id = 1; fetched_at = leap_day - days 9; price = 110 }
    ∷ []

-- No month before February has a return, so neither has a year.
no_full_year :
    (get_heatmap "USD" 1 leap_day two_prices
      (record { fx_rates = []; fx_rate_snapshots = [] })
      one_share).yearly_returns
    ≡ (2023, none) ∷ (2024, none) ∷ []
unfolding get_heatmap
no_full_year = refl
