-- ===== src/History/Tests.antt =====
-- Tests of the history, and each property at an input.
use assetlog.Prelude.{ℕ, ◌*◌, ◌≡◌, refl, none, List, [], ◌∷◌, ◌++◌, map, ◌==◌, if◌then◌else◌}
use assetlog.Prelude.Int.{ℤ, pos, ◌*ℤ◌, ◌+ℤ◌, ◌-ℤ◌}
use assetlog.Db.{Database, empty_database, buy, sell, crypto}
use assetlog.Trades.{TransactionData, of_data}
use assetlog.Fx.Service.{FxStore}
use assetlog.History.Rows.{PricePoint, Price, list_price_points_for_symbols, list_all_transactions}
use assetlog.History.Buckets.{
  HistoryPeriod, HistoryBucket, generate_bucket_timestamps, bucket_to_timedelta,
}
use assetlog.History.Points.{get_history}
use assetlog.History.Timestamps.{steps, Ended, generate_bucket_timestamps_lem}
use assetlog.History.Values.{stamped}
use assetlog.History.SinglePass.{each_bucket, get_history-each_bucket}

four_buckets : generate_bucket_timestamps 10 31 10 ≡ 10 ∷ 20 ∷ 30 ∷ 31 ∷ []
unfolding generate_bucket_timestamps
four_buckets = refl

generate_bucket_timestamps_lem_example :
    let delta = bucket_to_timedelta HistoryBucket.five_min in
    (n : ℕ) × (generate_bucket_timestamps 0 700_000_000 delta ≡ steps n 0 delta ++ 700_000_000 ∷ [])
    × Ended n 0 700_000_000 delta
generate_bucket_timestamps_lem_example =
    generate_bucket_timestamps_lem HistoryBucket.five_min 0 700_000_000

abbrev price_row : ℕ → ℕ → ℕ → PricePoint
price_row id at price = record { asset_symbol_id = id; fetched_at = at; price = price }

abbrev price : ℕ → ℕ → Price
price at p = record { at = at; price = p }

abbrev price_table : List PricePoint
price_table =
    price_row 1 3 30
    ∷ price_row 1 9 90
    ∷ price_row 1 5 50
    ∷ price_row 2 4 40
    ∷ price_row 1 7 70
    ∷ []

-- The last price before the start goes first.
seeded :
    list_price_points_for_symbols (1 ∷ []) 6 price_table
    ≡ (1, price 5 50 ∷ price 7 70 ∷ price 9 90 ∷ []) ∷ []
unfolding list_price_points_for_symbols
seeded = refl

abbrev bought_4 : TransactionData
bought_4 = record {
  type = buy;
  quantity = pos 4;
  price = pos 3;
  traded_at = 6;
  memo = none;
  tag = none;
}

abbrev shelf : Database
shelf = record empty_database {
  user_assets = record { id = 7; asset_symbol_id = 1 } ∷ [];
  asset_symbols =
      record {
        id = 1;
        asset_type = crypto;
        symbol = "BTC";
        exchange = "UPBIT";
        name = "Bitcoin";
        currency = "KRW";
      }
      ∷ [];
  transactions =
      of_data 1 7 bought_4
      ∷ of_data 2 7 (record bought_4 { type = sell; quantity = pos 1; traded_at = 8 })
      ∷ [];
  next_transaction = 3;
}

abbrev no_rates : FxStore
no_rates = record { fx_rates = []; fx_rate_snapshots = [] }

-- Exact shares of a cost.
abbrev in_shares : ℤ → ℕ → ℕ → ℤ
in_shares cost qty sold = if qty == sold then cost else pos (sold * 3)

all_time :
    map stamped (get_history in_shares HistoryPeriod.all "KRW" 10 price_table no_rates shelf)
    ≡ (6, pos 20_000_000_000) ∷ (10, pos 27_000_000_000) ∷ []
unfolding get_history ◌*ℤ◌ ◌+ℤ◌ ◌-ℤ◌
all_time = refl

get_history-each_bucket_example :
    map stamped (get_history in_shares HistoryPeriod.all "KRW" 10 price_table no_rates shelf)
    ≡ each_bucket HistoryPeriod.all "KRW" 10 price_table no_rates (list_all_transactions shelf)
get_history-each_bucket_example =
    get_history-each_bucket in_shares HistoryPeriod.all "KRW" 10 price_table no_rates shelf
