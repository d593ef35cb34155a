-- ===== src/Performance/Tests.antt =====
-- Tests of the performance report, and each property at an input.
use assetlog.Prelude.{
  ℕ, ◌+◌, ◌&&◌, ◌≡◌, refl, none, some, List, [], ◌∷◌, true, arith, map, any, inl, inr, Bool-cases,
  ◌==◌, ◌==ₛ◌, if◌then◌else◌, filter, eq_iff,
}
use assetlog.Prelude.Int.{ℤ, pos, negsuc, pos_part, neg_part, ltb_ℤ, leb_ℤ, ◌+ℤ◌, ◌*ℤ◌, ◌-ℤ◌}
use assetlog.Prelude.Keyed.{Keyed, at_key_or}
use assetlog.Prelude.Sorting.{sort, by_key}
use assetlog.Db.{Database, empty_database, buy, sell, us_stock}
use assetlog.Trades.{of_data}
use assetlog.Fx.Service.{FxStore, Adapter, refresh_all}
use assetlog.Fx.Unique.{UniqueKeys}
use assetlog.History.Rows.{AllTxRow, Price, list_all_transactions}
use assetlog.History.Quantities.{traded}
use assetlog.Performance.Flows.{Cashflow, FxAt, extract_cashflows}
use assetlog.Performance.Moments.{FlowsOf, extract_cashflows_lem}
use assetlog.Performance.Window.{PerformancePeriod, PerformanceMethod, start_of, year_start}
use assetlog.Performance.Mwr.{
  Floats, sorted_payments, all_payments, reference_date, both_signs, compute_mwr,
}
use assetlog.Performance.Irr.{Certified, compute_mwr_lem}
use assetlog.Performance.Cached.{blocks}
use assetlog.Performance.Raises.{raised, get_performance-raises, get_performance-refresh_all}
use assetlog.Performance.Service.{get_performance}
use assetlog.Performance.Series.{ValuePoint, build_value_series}
use assetlog.Performance.EachTime.{SortedPrices, point_at, build_value_series-each_time}
use assetlog.Performance.Twr.{
  Ratio, latest_value, net_flows, boundaries, at_time, sorted_flows, compute_twr,
}
use assetlog.Performance.Neutral.{IsZero, NoMarketMove, compute_twr-neutral}

abbrev bought_2 : AllTxRow
bought_2 = record {
  symbol_id = 1;
  currency = "USD";
  traded_at = 10;
  quantity = 2;
  price = 5;
  tx_type = buy;
}

abbrev sold_1 : AllTxRow
sold_1 = record bought_2 { traded_at = 20; quantity = 1; price = 7; tx_type = sell }

abbrev point : ℕ → ℕ → ValuePoint
point at v = record { timestamp = at; value = pos v }

abbrev paid_in : ℕ → ℕ → Cashflow
paid_in at v = record { date = at; amount = pos 0 -ℤ pos v; kind = "buy" }

-- No rate is to be had for any currency but the report's.
abbrev at_par : FxAt
at_par amount from_cur to_cur at = if from_cur ==ₛ to_cur then some amount else none

two_flows :
    extract_cashflows (sold_1 ∷ bought_2 ∷ []) "USD" at_par 5 20
    ≡ some (
        record { date = 10; amount = negsuc 9; kind = "buy" }
        ∷ record { date = 20; amount = pos 7; kind = "sell" }
        ∷ [])
unfolding extract_cashflows
two_flows = refl

no_flows : extract_cashflows (sold_1 ∷ bought_2 ∷ []) "KRW" at_par 5 20 ≡ none
unfolding extract_cashflows
no_flows = refl

extract_cashflows_lem_example :
    FlowsOf "USD" at_par 5 20
      (sold_1 ∷ bought_2 ∷ [])
      (extract_cashflows (sold_1 ∷ bought_2 ∷ []) "USD" at_par 5 20)
extract_cashflows_lem_example = extract_cashflows_lem "USD" at_par 5 20 (sold_1 ∷ bought_2 ∷ [])

abbrev one_price : Keyed (List Price)
one_price = (1, record { at = 8; price = 4 } ∷ record { at = 15; price = 6 } ∷ []) ∷ []

one_price-SortedPrices : SortedPrices one_price ((1, "USD") ∷ []) at_par "USD"
unfolding at_key_or
one_price-SortedPrices k = elim (Bool-cases (1 == k)) [
  | inl e ↦ rw e (omega arith)
  | inr e ↦ rw e tt
]

three_values :
    build_value_series
      (sold_1 ∷ bought_2 ∷ [])
      one_price
      ((1, "USD") ∷ [])
      at_par
      "USD"
      (9 ∷ 10 ∷ 20 ∷ [])
    ≡ point 9 0 ∷ point 10 8 ∷ point 20 6 ∷ []
unfolding build_value_series
three_values = refl

build_value_series-each_time_example :
    build_value_series
      (sold_1 ∷ bought_2 ∷ [])
      one_price
      ((1, "USD") ∷ [])
      at_par
      "USD"
      (9 ∷ 10 ∷ 20 ∷ [])
    ≡ map
        (point_at one_price
          ((1, "USD") ∷ [])
          at_par
          "USD"
          (sort (by_key traded) (sold_1 ∷ bought_2 ∷ []))
          [])
        (9 ∷ 10 ∷ 20 ∷ [])
build_value_series-each_time_example =
    build_value_series-each_time one_price ((1, "USD") ∷ []) at_par "USD" (sold_1 ∷ bought_2 ∷ [])
      (9 ∷ 10 ∷ 20 ∷ []) one_price-SortedPrices (omega arith)

-- 10 grows to 12, 6 are paid in, and 18 grow to 27: 12 / 10 * 27 / 18 - 1.
abbrev grown : Ratio
grown = record { num = pos 144; den = 180 }

twr_grown : compute_twr (point 1 10 ∷ point 2 18 ∷ point 3 27 ∷ []) (paid_in 2 6 ∷ []) ≡ some grown
unfolding compute_twr ◌+ℤ◌ ◌-ℤ◌ ◌*ℤ◌
twr_grown = refl

-- All is sold at the end, for more than it cost: no return is reported.
twr_sold_out :
    compute_twr
      (point 1 10 ∷ point 3 0 ∷ [])
      (record { date = 3; amount = pos 20; kind = "sell" } ∷ [])
    ≡ none
unfolding compute_twr ◌+ℤ◌
twr_sold_out = refl

steady :
    NoMarketMove
      (sort (by_key at_time) (point 1 10 ∷ point 2 16 ∷ point 3 16 ∷ []))
      (sorted_flows (paid_in 2 6 ∷ []))
unfolding sort latest_value net_flows boundaries at_key_or ◌+ℤ◌ ◌-ℤ◌
steady = (refl, (refl, refl, (refl, refl, tt)))

compute_twr-neutral_example :
    IsZero (compute_twr (point 1 10 ∷ point 2 16 ∷ point 3 16 ∷ []) (paid_in 2 6 ∷ []))
compute_twr-neutral_example =
    compute_twr-neutral (point 1 10 ∷ point 2 16 ∷ point 3 16 ∷ []) (paid_in 2 6 ∷ []) steady

-- The first day of 2024, from some time in that year.
first_of_2024 : year_start 63_850_000_000_000_000 ≡ 63_839_664_000_000_000
unfolding year_start
first_of_2024 = refl

-- Floats that only count: nothing is discounted.
abbrev counting : Floats
counting = record {
  F = ℤ;
  of_amount = λ v. v;
  of_ratio = λ r. r.num;
  years_of_days = λ d. d;
  years_of_span = λ n. pos n;
  add = λ a b. a +ℤ b;
  sub = λ a b. a -ℤ b;
  mul = λ a b. a *ℤ b;
  div = λ a b. a;
  pow = λ a b. a;
  sqrt = λ a. a;
  abs = λ a. pos (pos_part a + neg_part a);
  less = ltb_ℤ;
  at_most = leb_ℤ;
  is_zero = λ a. leb_ℤ a (pos 0) && leb_ℤ (pos 0) a;
  nought = pos 0;
  unit = pos 1;
  two = pos 2;
  trading_days = pos 252;
  tol = pos 1;
  seed = pos 10;
  floor_rate = negsuc 0;
  bracket_low = negsuc 0;
  bracket_high = pos 10;
  narrow = pos 1;
  rounded = λ r. r;
}

paid_back : compute_mwr counting (paid_in 1 4 ∷ []) (pos 7) 9 (pos 3) (some 0) ≡ some (pos 10)
unfolding compute_mwr ◌+ℤ◌ ◌-ℤ◌ ◌*ℤ◌
paid_back = refl

compute_mwr_lem_example :
    let ps = sorted_payments (paid_in 1 4 ∷ []) (pos 7) 9 (pos 3) (some 0) in
    let paid = all_payments ps 9 (pos 3) (some 0) in
    (both_signs paid ≡ true)
    × Certified counting (reference_date ps 9 (pos 3) (some 0)) paid (pos 10)
compute_mwr_lem_example =
    compute_mwr_lem counting (paid_in 1 4 ∷ []) (pos 7) 9 (pos 3) (some 0) (pos 10) paid_back

-- Shares in dollars, bought at the time 40.
abbrev in_dollars : Database
in_dollars = record empty_database {
  user_assets = record { id = 7; asset_symbol_id = 1 } ∷ [];
  asset_symbols =
      record {
        id = 1;
        asset_type = us_stock;
        symbol = "AAPL";
        exchange = "NASDAQ";
        name = "Apple";
        currency = "USD";
      }
      ∷ [];
  transactions =
      of_data 1 7 (record {
        type = buy;
        quantity = pos 2;
        price = pos 5;
        traded_at = 40;
        memo = none;
        tag = none;
      })
      ∷ [];
  next_transaction = 2;
}

-- The USD fetch answers, and no other.
abbrev only_usd : Adapter
only_usd base quotes = if base ==ₛ "USD" then some (("KRW", pos 138_000_000_000) ∷ []) else none

abbrev empty_store : FxStore
empty_store = record { fx_rates = []; fx_rate_snapshots = [] }

empty-UniqueKeys : UniqueKeys empty_store
unfolding filter
empty-UniqueKeys b q = (omega arith, tt)

get_performance-raises_example :
    raised counting (
      get_performance counting PerformancePeriod.all PerformanceMethod.twr "KRW" 60 [] empty_store
        in_dollars)
    ≡ any
        (blocks empty_store "KRW"
          (start_of PerformancePeriod.all 60 (list_all_transactions in_dollars))
          60)
        (list_all_transactions in_dollars)
get_performance-raises_example =
    get_performance-raises counting PerformancePeriod.all PerformanceMethod.twr "KRW" 60 []
      empty_store in_dollars

get_performance-refresh_all_example :
    get_performance counting PerformancePeriod.all PerformanceMethod.twr "KRW" 60 []
      (refresh_all only_usd 50 empty_store).1
      in_dollars
    ≡ none
unfolding filter start_of list_all_transactions
get_performance-refresh_all_example =
    get_performance-refresh_all counting only_usd "USD" "KRW" (pos 138_000_000_000) 50 60
      empty_store PerformancePeriod.all PerformanceMethod.twr [] in_dollars empty-UniqueKeys
      (ground (arith, eq_iff "USD" "KRW")) refl refl
