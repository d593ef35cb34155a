-- ===== src/Risk/Service.antt =====
-- `get_risk_metrics` of backend/app/services/risk.py, at the time `end_dt` of the request.
use assetlog.Prelude.{
  ℕ, ◌-◌, max, String, Bool, false, Option, none, some, List, [], ◌∷◌, ◌++◌, filter, ◌&&◌, not,
  if◌then◌else◌,
}
use assetlog.Db.{Database}
use assetlog.Fx.Service.{FxStore}
use assetlog.History.Rows.{AllTxRow, PricePoint, list_all_transactions}
use assetlog.Performance.Series.{ValuePoint}
use assetlog.Performance.Window.{PerformancePeriod, start_of}
use assetlog.Performance.Mwr.{Floats}
use assetlog.Performance.Sampled.{sampled_series}
use assetlog.Performance.Service.{when_given}
use assetlog.Risk.Drawdown.{Drawdown, is_sample, max_drawdown}
use assetlog.Risk.Statistics.{to_daily_returns, annualized_volatility, annualized_return}
use assetlog.Risk.Grid.{day_of, midnight, daily_grid}

pub record RiskMetrics (floats : Floats) : Type 0 where
  pub annualized_return : Option floats.F
  pub annualized_volatility : Option floats.F
  pub sharpe_ratio : Option floats.F
  pub max_drawdown : Option Drawdown
  pub max_drawdown_at : Option ℕ
  pub warnings : List String

abbrev pub last_point : ValuePoint → List ValuePoint → ValuePoint
last_point vp [] = vp
last_point vp (next ∷ series) = last_point next series

module _ (floats : Floats) (risk_free_rate : floats.F) where
  open floats use {F, sub, div, less, is_zero, nought}

  abbrev pub empty_response : List String → RiskMetrics floats
  empty_response warnings = record {
    annualized_return = none;
    annualized_volatility = none;
    sharpe_ratio = none;
    max_drawdown = none;
    max_drawdown_at = none;
    warnings = warnings;
  }

  abbrev pub sharpe : Option F → Option F → Option F
  sharpe none vol = none
  sharpe (some ret) none = none
  sharpe (some ret) (some vol) =
      if less nought vol then some (div (sub ret risk_free_rate) vol) else none

  -- `volatility_zero`: the branch after that of the ratio.
  abbrev pub no_volatility : Option F → Option F → Bool
  no_volatility none none = false
  no_volatility none (some vol) = is_zero vol
  no_volatility (some ret) none = false
  no_volatility (some ret) (some vol) = not (less nought vol) && is_zero vol

  -- From the series on: `first` and `rest` are its positive points.
  unfoldable pub measured : List String → List ValuePoint → List ValuePoint → RiskMetrics floats
  unfolding annualized_volatility annualized_return max_drawdown
  measured warnings series [] = empty_response (warnings ++ "insufficient_samples" ∷ [])
  measured warnings series (first ∷ []) = empty_response (warnings ++ "insufficient_samples" ∷ [])
  measured warnings series (first ∷ second ∷ rest) =
      let last = last_point second rest in
      let vol = annualized_volatility floats (to_daily_returns series) in
      let span = midnight (max (day_of (last.timestamp - first.timestamp)) 1) in
      let ret = annualized_return floats first.value last.value span in
      let (mdd, trough_at) = max_drawdown series in
      record {
        annualized_return = ret;
        annualized_volatility = vol;
        sharpe_ratio = sharpe ret vol;
        max_drawdown = mdd;
        max_drawdown_at = trough_at;
        warnings = warnings ++ when_given (no_volatility ret vol) "volatility_zero";
      }

  abbrev pub of_rows :
      FxStore → List PricePoint → String → List ℕ → List AllTxRow → RiskMetrics floats
  of_rows fx points currency timestamps [] = empty_response ("no_activity_in_period" ∷ [])
  of_rows fx points currency timestamps (tx ∷ txs) =
      let (missing, series) = sampled_series fx points (tx ∷ txs) currency timestamps in
      measured (when_given missing "fx_rate_missing") series (filter is_sample series)

  unfoldable pub get_risk_metrics :
      PerformancePeriod → String → ℕ → List PricePoint → FxStore → Database → RiskMetrics floats
  unfolding measured sampled_series daily_grid start_of list_all_transactions filter
  get_risk_metrics period currency end_dt points fx db =
      let all_txs = list_all_transactions db in
      of_rows fx points currency (daily_grid (start_of period end_dt all_txs) end_dt) all_txs
