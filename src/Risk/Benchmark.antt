-- ===== src/Risk/Benchmark.antt =====
-- The returns of backend/app/services/benchmark.py, and its `compare`. The adapter is a parameter:
-- the closes that it gives for a symbol, none where it has no answer. A return is an exact fraction.
use assetlog.Prelude.{ℕ, String, Option, none, some, List, [], ◌∷◌, ◌++◌, map, leb, if◌then◌else◌}
use assetlog.Prelude.Int.{ℤ, pos, ◌-ℤ◌, ◌*ℤ◌, ltb_ℤ}
use assetlog.Prelude.Dict.{Dict, insert}
use assetlog.Prelude.Sorting.{sort}
use assetlog.Db.{Database}
use assetlog.Fx.Service.{FxStore}
use assetlog.History.Rows.{AllTxRow, PricePoint, Price, by_time, list_all_transactions}
use assetlog.Performance.Series.{ValuePoint}
use assetlog.Performance.Twr.{Ratio, quotient, less_one}
use assetlog.Performance.Window.{PerformancePeriod, start_of}
use assetlog.Performance.Sampled.{sampled_series}
use assetlog.Performance.Service.{when_given, is_empty}
use assetlog.Risk.Statistics.{nil_ratio, minus}
use assetlog.Risk.Grid.{daily_grid}

pub record ReturnPoint : Type 0 where
  pub timestamp : ℕ
  pub cumulative_return : Ratio

abbrev pub sample : ℕ × ℤ → ℕ
sample s = s.0

-- The loop with its `baseline`.
unfoldable pub returns_from : Option ℤ → List (ℕ × ℤ) → List ReturnPoint
unfolding ◌-ℤ◌
returns_from baseline [] = []
returns_from none ((ts, value) ∷ samples) =
    record { timestamp = ts; cumulative_return = nil_ratio }
    ∷ returns_from (if ltb_ℤ (pos 0) value then some value else none) samples
returns_from (some base) ((ts, value) ∷ samples) =
    record { timestamp = ts; cumulative_return = less_one (quotient value base) }
    ∷ returns_from (some base) samples

abbrev pub to_cumulative_returns : List (ℕ × ℤ) → List ReturnPoint
to_cumulative_returns samples = returns_from none samples

-- `while cursor < len(sorted_hist)`: the last close up to `ts`, and the closes that are left.
unfoldable pub closes_until : ℕ → Option Price → List Price → Option Price × List Price
closes_until ts last_close [] = (last_close, [])
closes_until ts last_close (h ∷ hist) =
    let on = closes_until ts (some h) hist in if leb h.at ts then on else (last_close, h ∷ hist)

abbrev pub close_or_zero : Option Price → ℤ
close_or_zero none = pos 0
close_or_zero (some h) = pos h.price

unfoldable pub closes_at : Option Price → List Price → List ℕ → List (ℕ × ℤ)
unfolding closes_until
closes_at last_close hist [] = []
closes_at last_close hist (ts ∷ timestamps) =
    let (close, left) = closes_until ts last_close hist in
    (ts, close_or_zero close) ∷ closes_at close left timestamps

unfoldable pub benchmark_to_returns : List Price → List ℕ → List ReturnPoint
unfolding closes_at returns_from sort
benchmark_to_returns history timestamps =
    if is_empty history
    then []
    else to_cumulative_returns (closes_at none (sort by_time history) timestamps)

abbrev pub at_zero : ℕ → ReturnPoint
at_zero ts = record { timestamp = ts; cumulative_return = nil_ratio }

abbrev pub as_sample : ValuePoint → ℕ × ℤ
as_sample vp = (vp.timestamp, vp.value)

-- `_build_portfolio_returns`, with its warnings.
unfoldable pub build_portfolio_returns :
    FxStore → List PricePoint → List AllTxRow → String → List ℕ → List String × List ReturnPoint
unfolding sampled_series returns_from
build_portfolio_returns fx points [] currency timestamps =
    ("no_activity_in_period" ∷ [], map at_zero timestamps)
build_portfolio_returns fx points (tx ∷ txs) currency timestamps =
    let (missing, series) = sampled_series fx points (tx ∷ txs) currency timestamps in
    (when_given missing "fx_rate_missing", to_cumulative_returns (map as_sample series))

pub record BenchmarkSeries : Type 0 where
  pub symbol : String
  pub points : List ReturnPoint

pub record Comparison : Type 0 where
  pub portfolio : List ReturnPoint
  pub benchmarks : List BenchmarkSeries
  pub alpha : Dict Ratio
  -- The symbols of the warnings `benchmark_fetch_failed:…` after the portfolio's.
  pub warnings : List String
  pub failed : List String

abbrev pub last_return : ReturnPoint → List ReturnPoint → Ratio
last_return p [] = p.cumulative_return
last_return p (q ∷ points) = last_return q points

-- `alpha[symbol] = ...`
abbrev pub set_alpha : String → List ReturnPoint → List ReturnPoint → Dict Ratio → Dict Ratio
set_alpha symbol [] bm_points alpha = alpha
set_alpha symbol (p ∷ points) [] alpha = alpha
set_alpha symbol (p ∷ points) (q ∷ bm_points) alpha =
    insert symbol (minus (last_return p points) (last_return q bm_points)) alpha

abbrev pub compare_symbol : List ℕ → String → List Price → Comparison → Comparison
compare_symbol timestamps symbol history c =
    let bm_points = benchmark_to_returns history timestamps in
    if is_empty history then record c { failed = c.failed ++ symbol ∷ [] } else record c {
      benchmarks = c.benchmarks ++ record { symbol = symbol; points = bm_points } ∷ [];
      alpha = set_alpha symbol c.portfolio bm_points c.alpha;
    }

unfoldable pub compare_symbols :
    (String → List Price) → List ℕ → List String → Comparison → Comparison
unfolding benchmark_to_returns insert ◌-ℤ◌ ◌*ℤ◌
compare_symbols adapter timestamps [] c = c
compare_symbols adapter timestamps (symbol ∷ symbols) c =
    compare_symbols adapter timestamps symbols (compare_symbol timestamps symbol (adapter symbol) c)

unfoldable pub compare :
    (String → List Price)
    → PerformancePeriod
    → String
    → List String
    → ℕ
    → List PricePoint
    → FxStore
    → Database
    → Comparison
unfolding compare_symbols build_portfolio_returns daily_grid start_of list_all_transactions
compare adapter period currency symbols end_dt points fx db =
    let all_txs = list_all_transactions db in
    let timestamps = daily_grid (start_of period end_dt all_txs) end_dt in
    let (warnings, portfolio) = build_portfolio_returns fx points all_txs currency timestamps in
    compare_symbols adapter timestamps symbols (record {
      portfolio = portfolio;
      benchmarks = [];
      alpha = [];
      warnings = warnings;
      failed = [];
    })
