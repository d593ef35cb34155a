-- ===== src/Bulk/Tests.antt =====
-- Tests of the bulk import, and each property at an input.
use assetlog.Prelude.{
  ℕ, String, ◌≡◌, ◌⊎◌, refl, none, List, [], ◌∷◌, ◌++◌, find, filter, length, arith,
}
use assetlog.Prelude.Int.{pos, ◌+ℤ◌, ◌-ℤ◌}
use assetlog.Prelude.Sorting.{sort}
use assetlog.Prelude.Sums.{sum_of}
use assetlog.Db.{Database, Transaction, Error, crypto, buy, sell, ok, err, empty_database}
use assetlog.Trades.{TransactionData, get_remaining_quantity}
use assetlog.Trades.Holdings.{IsCovered}
use assetlog.Bulk.Service.{BulkRow, inserted_rows, import_json}
use assetlog.Bulk.Balance.{change_at}
use assetlog.Bulk.Imports.{found, import_json_all_or_nothing}

abbrev listed : Database
listed = record empty_database {
  user_assets = record { id = 7; asset_symbol_id = 1 } ∷ [];
  asset_symbols =
      record {
        id = 1;
        asset_type = crypto;
        symbol = "BTC";
        exchange = "UPBIT";
        name = "Bitcoin";
        currency = "KRW";
      }
      ∷ [];
}

abbrev bought_3 : TransactionData
bought_3 = record {
  type = buy;
  quantity = pos 3;
  price = pos 100;
  traded_at = 10;
  memo = none;
  tag = none;
}

abbrev of_btc : TransactionData → BulkRow
of_btc d = record { symbol = "BTC"; exchange = "UPBIT"; base = d }

-- A SELL that stands before the BUY that it rests on.
abbrev rows : List BulkRow
rows = of_btc (record bought_3 { type = sell; traded_at = 20 }) ∷ of_btc bought_3 ∷ []

-- These texts are in capitals, so `upper` leaves them.
abbrev upper : String → String
upper s = s

abbrev after : Database
after = (import_json upper rows listed).1

both_written : length after.transactions ≡ 2
unfolding import_json find filter sort ◌+ℤ◌ ◌-ℤ◌
both_written = refl

import_json_all_or_nothing_example :
    let resolved = found upper rows listed in
    let (out, after) = import_json upper rows listed in
    ((e : Error) × (import_json upper rows listed ≡ (err e, listed)))
    ⊎ ((preview : List Transaction) × (out ≡ ok (2, preview))
        × (length resolved ≡ 2)
        × (after.transactions ≡ [] ++ inserted_rows 1 resolved)
        × ((uid : ℕ)
            → get_remaining_quantity uid after
              ≡ get_remaining_quantity uid listed +ℤ change_at uid resolved))
import_json_all_or_nothing_example = import_json_all_or_nothing upper rows listed

listed-IsCovered : IsCovered listed
unfolding get_remaining_quantity ◌-ℤ◌ sum_of filter
listed-IsCovered uid = omega arith
