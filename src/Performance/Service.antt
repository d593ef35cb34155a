-- ===== src/Performance/Service.antt =====
-- `get_performance` of backend/app/services/performance.py, at the time `end_dt` of the request. It
-- is none where FxRateNotAvailableError leaves it.
use assetlog.Prelude.{
  ℕ, ◌-◌, String, Bool, true, false, Option, none, some, List, [], ◌∷◌, ◌++◌, map, filter, any, leb,
  not, ◌&&◌, if◌then◌else◌,
}
use assetlog.Prelude.Int.{ℤ, pos}
use assetlog.Prelude.Keyed.{Keyed}
use assetlog.Prelude.Sorting.{sort, by_key}
use assetlog.Db.{Database}
use assetlog.Fx.Service.{FxStore}
use assetlog.History.Rows.{
  AllTxRow, PricePoint, Price, list_all_transactions, list_price_points_for_symbols,
}
use assetlog.History.Points.{currencies_of, ids_of}
use assetlog.Performance.Flows.{Cashflow, FxAt, in_window, extract_cashflows}
use assetlog.Performance.Series.{ValuePoint, build_value_series}
use assetlog.Performance.Twr.{Ratio, compute_twr, first_seen, id}
use assetlog.Performance.Window.{PerformancePeriod, PerformanceMethod, start_of}
use assetlog.Performance.Rates.{
  FxKey, add_key, add_timestamps, hour_of, fetch_all, fx_missing, fx_at_sync,
}
use assetlog.Performance.Mwr.{Floats, compute_mwr, annualize}

pub record PerformanceResponse (floats : Floats) : Type 0 where
  pub start_date : ℕ
  pub end_date : ℕ
  pub twr : Option Ratio
  pub mwr : Option floats.F
  pub annualized_twr : Option floats.F
  pub annualized_mwr : Option floats.F
  pub start_value : Option ℤ
  pub end_value : Option ℤ
  pub cashflows : List Cashflow
  pub warnings : List String

abbrev pub wants_twr : PerformanceMethod → Bool
wants_twr PerformanceMethod.mwr = false
wants_twr PerformanceMethod.twr = true
wants_twr PerformanceMethod.both = true

abbrev pub wants_mwr : PerformanceMethod → Bool
wants_mwr PerformanceMethod.twr = false
wants_mwr PerformanceMethod.mwr = true
wants_mwr PerformanceMethod.both = true

abbrev pub when_given : Bool → String → List String
when_given true w = w ∷ []
when_given false w = []

-- `sorted({...})`
abbrev pub sorted_set : List ℕ → List ℕ
sorted_set times = first_seen [] (sort (by_key id) times)

abbrev pub first_value : List ValuePoint → Option ℤ
first_value [] = none
first_value (vp ∷ series) = some vp.value

abbrev pub final_value : List ValuePoint → Option ℤ
final_value [] = none
final_value (vp ∷ []) = some vp.value
final_value (vp ∷ next ∷ series) = final_value (next ∷ series)

abbrev pub or_nought : Option ℤ → ℤ
or_nought none = pos 0
or_nought (some v) = v

-- The keys of the transactions in the window.
unfoldable pub add_flow_keys : String → List AllTxRow → List FxKey → List FxKey
add_flow_keys currency [] pairs = pairs
add_flow_keys currency (tx ∷ txs) pairs = add_flow_keys currency txs (
    add_key (record { from_cur = tx.currency; to_cur = currency; at = hour_of tx.traded_at }) pairs)

abbrev pub times_of : List AllTxRow → List ℕ
times_of txs = map (λ (tx : AllTxRow). tx.traded_at) txs

-- `unique_pairs`
unfoldable pub unique_pairs : String → Keyed String → List ℕ → List AllTxRow → ℕ → ℕ → List FxKey
unfolding add_flow_keys add_timestamps
unique_pairs currency symbol_currency ids in_window_txs start_dt end_dt =
    add_timestamps currency symbol_currency ids
      (sorted_set (times_of in_window_txs ++ start_dt ∷ end_dt ∷ []))
      (add_flow_keys currency in_window_txs [])

abbrev pub among : ℕ → ℕ → List AllTxRow → List AllTxRow
among start_dt end_dt txs = filter (in_window start_dt end_dt) txs

abbrev pub by_then : ℕ → List AllTxRow → Bool
by_then at txs = any (λ (tx : AllTxRow). leb tx.traded_at at) txs

abbrev pub is_empty {ℓ} : {A : Type ℓ} → List A → Bool
is_empty [] = true
is_empty (x ∷ xs) = false

module _ (floats : Floats) where
  abbrev pub no_activity : ℕ → ℕ → PerformanceResponse floats
  no_activity start_dt end_dt = record {
    start_date = start_dt;
    end_date = end_dt;
    twr = none;
    mwr = none;
    annualized_twr = none;
    annualized_mwr = none;
    start_value = none;
    end_value = none;
    cashflows = [];
    warnings = "no_activity_in_period" ∷ [];
  }

  abbrev pub annualized : Option Ratio → ℕ → Option floats.F
  annualized none span = none
  annualized (some rate) span = annualize floats rate span

  abbrev pub is_unsolved : Option floats.F → Bool
  is_unsolved none = true
  is_unsolved (some r) = false

  -- Steps 7 to 9: `missing` says that a rate was not to be had, `quiet` that there was no activity.
  unfoldable pub measured :
      PerformanceMethod
      → ℕ
      → ℕ
      → Bool
      → Bool
      → List Cashflow
      → List ValuePoint
      → PerformanceResponse floats
  unfolding compute_twr compute_mwr annualize
  measured method start_dt end_dt missing quiet cashflows series =
      let start_value = first_value series in
      let end_value = final_value series in
      let twr = if wants_twr method && not missing then compute_twr series cashflows else none in
      let mwr =
        if wants_mwr method && not missing
        then compute_mwr floats cashflows (or_nought end_value) end_dt (or_nought start_value)
            (some start_dt)
        else none in
      record {
        start_date = start_dt;
        end_date = end_dt;
        twr = twr;
        mwr = mwr;
        annualized_twr = annualized twr (end_dt - start_dt);
        annualized_mwr = mwr;
        start_value = start_value;
        end_value = end_value;
        cashflows = cashflows;
        warnings =
            when_given missing "fx_rate_missing"
            ++ (when_given quiet "no_activity_in_period"
                ++ when_given (wants_mwr method && not missing && is_unsolved mwr)
                    "mwr_unsolvable");
      }

  -- From the cash flows on: none where their extraction raised.
  unfoldable pub reported :
      PerformanceMethod
      → String
      → ℕ
      → ℕ
      → Bool
      → List AllTxRow
      → Keyed (List Price)
      → FxAt
      → Option (List Cashflow)
      → Option (PerformanceResponse floats)
  unfolding measured build_value_series currencies_of sort first_seen
  reported method currency start_dt end_dt missing all_txs price_index fx_at none = none
  reported method currency start_dt end_dt missing all_txs price_index fx_at (some cashflows) =
      let dates = map (λ (cf : Cashflow). cf.date) cashflows in
      let series =
        build_value_series all_txs price_index (currencies_of all_txs []) fx_at currency
          (sorted_set (dates ++ start_dt ∷ end_dt ∷ [])) in
      some (
        measured method start_dt end_dt missing
          (is_empty cashflows && not (by_then start_dt all_txs)) cashflows series)

  abbrev pub of_transactions :
      PerformanceMethod
      → String
      → ℕ
      → ℕ
      → List PricePoint
      → FxStore
      → List AllTxRow
      → Option (PerformanceResponse floats)
  of_transactions method currency start_dt end_dt points fx all_txs =
      let in_window_txs = among start_dt end_dt all_txs in
      let ids = ids_of all_txs in
      let pairs =
        unique_pairs currency (currencies_of all_txs []) ids in_window_txs start_dt end_dt in
      let fx_at = fx_at_sync (fetch_all fx pairs) in
      if is_empty in_window_txs && not (by_then end_dt all_txs)
      then some (no_activity start_dt end_dt)
      else reported method currency start_dt end_dt (fx_missing fx pairs) all_txs
          (list_price_points_for_symbols ids start_dt points) fx_at
          (extract_cashflows in_window_txs currency fx_at start_dt end_dt)

  unfoldable pub get_performance :
      PerformancePeriod
      → PerformanceMethod
      → String
      → ℕ
      → List PricePoint
      → FxStore
      → Database
      → Option (PerformanceResponse floats)
  unfolding reported fx_missing fetch_all fx_at_sync unique_pairs extract_cashflows start_of
      list_all_transactions list_price_points_for_symbols currencies_of filter
  get_performance period method currency end_dt points fx db =
      let all_txs = list_all_transactions db in
      of_transactions method currency (start_of period end_dt all_txs) end_dt points fx all_txs
