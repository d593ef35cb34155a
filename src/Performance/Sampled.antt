-- ===== src/Performance/Sampled.antt =====
-- `_build_value_series` of backend/app/services/risk.py and backend/app/services/heatmap.py, and the
-- same steps in backend/app/services/benchmark.py: a symbol whose rate is not to be had counts as
-- nothing.
use assetlog.Prelude.{ℕ, String, Bool, Option, none, some, List, [], ◌∷◌, ◌==ₛ◌, if◌then◌else◌}
use assetlog.Prelude.Int.{ℤ, pos, ◌*ℤ◌}
use assetlog.Fx.Service.{FxStore, one}
use assetlog.History.Rows.{AllTxRow, PricePoint, list_price_points_for_symbols}
use assetlog.History.Points.{currencies_of, ids_of}
use assetlog.Performance.Rates.{FxKey, hour_of, add_timestamps, fetch_all, fx_missing, cached}
use assetlog.Performance.Series.{ValuePoint, build_value_series}

abbrev pub scaled_or_zero : ℤ → Option ℤ → ℤ
scaled_or_zero amount none = pos 0
scaled_or_zero amount (some rate) = amount *ℤ rate

-- The `fx_at_sync` of these services, which never raises.
unfoldable pub fx_or_zero : List (FxKey × ℤ) → ℤ → String → String → ℕ → Option ℤ
unfolding cached ◌*ℤ◌
fx_or_zero cache amount from_cur to_cur at =
    if from_cur ==ₛ to_cur
    then some (amount *ℤ one)
    else some (
        scaled_or_zero amount
          (cached (record { from_cur = from_cur; to_cur = to_cur; at = hour_of at }) cache))

abbrev pub first_time : List ℕ → ℕ
first_time [] = 0
first_time (ts ∷ timestamps) = ts

-- The series, and whether a rate was missing.
unfoldable pub sampled_series :
    FxStore → List PricePoint → List AllTxRow → String → List ℕ → Bool × List ValuePoint
unfolding add_timestamps fetch_all fx_missing fx_or_zero build_value_series currencies_of
    list_price_points_for_symbols
sampled_series fx points all_txs currency timestamps =
    let ids = ids_of all_txs in
    let symbol_currency = currencies_of all_txs [] in
    let pairs = add_timestamps currency symbol_currency ids timestamps [] in
    (
      fx_missing fx pairs,
      build_value_series all_txs (list_price_points_for_symbols ids (first_time timestamps) points)
          symbol_currency (fx_or_zero (fetch_all fx pairs)) currency timestamps,
    )
