-- ===== src/Sync/Tests.antt =====
-- Tests of the imports, and each property at an input.
use assetlog.Prelude.{
  ℕ, ◌+◌, ◌-◌, ◌||◌, some, String, ◌≡◌, refl, none, List, [], ◌∷◌, ◌++◌, map, filter, find, length,
}
use assetlog.Prelude.Int.{pos}
use assetlog.Prelude.Sorting.{sort}
use assetlog.Sync.CashTxs.{import_parsed_cash_txs, collapsed}
use assetlog.Db.{CashTx, Database, Transaction, buy, deposit, ok, empty_database}
use assetlog.Sync.Records.{
  toss_securities, ParsedCashTx, ParsedCashTxKind, ExternalTrade, SyncResult, upbit,
}
use assetlog.Sync.Symbols.{Resolvers}
use assetlog.Sync.Trades.{
  elem, has_key, ids_of, of_external, of_other_source, import_trades, replace_trades, sync_result,
}
use assetlog.Sync.Lookup.{UniqueKeys}
use assetlog.Sync.Imports.{incoming, import_trades_complete, import_trades-again}
use assetlog.Sync.Replacing.{NoRepeat, replace_trades_complete}

abbrev offline : Resolvers
offline = record { resolve_symbol = λ t s. none; display_name = λ s. none }

abbrev order_1 : ExternalTrade
order_1 = record {
  external_id = "order-1";
  symbol = "BTC";
  quote_currency = "KRW";
  side = buy;
  quantity = pos 5;
  price = pos 7;
  traded_at = 3;
  fee = pos 0;
}

abbrev order_2 : ExternalTrade
order_2 = record order_1 { external_id = "order-2" }

-- One id twice.
abbrev orders : List ExternalTrade
orders = order_1 ∷ order_2 ∷ order_1 ∷ []

imported : (import_trades offline upbit orders empty_database).0 ≡ ok (sync_result 3 2 1)
unfolding import_trades find
imported = refl

import_trades_complete_example :
    let (out, after) = import_trades offline upbit orders empty_database in
    (r : SyncResult) × (new : List Transaction) × (out ≡ ok r)
    × (after.transactions ≡ [] ++ new)
    × (r.inserted ≡ length new)
    × (r.fetched ≡ 3)
    × (r.inserted + r.skipped_duplicate ≡ r.fetched)
    × ((e : String)
        → has_key "upbit" e after.transactions
          ≡ (has_key "upbit" e [] || elem e (ids_of (incoming upbit orders))))
    × UniqueKeys after.transactions
import_trades_complete_example = import_trades_complete offline upbit orders empty_database tt

import_trades-again_example :
    let after = (import_trades offline upbit orders empty_database).1 in
    import_trades offline upbit orders after ≡ (ok (sync_result 3 0 3), after)
import_trades-again_example = import_trades-again offline upbit orders empty_database

two_orders : NoRepeat (ids_of (map (of_external upbit) (order_1 ∷ order_2 ∷ [])))
unfolding of_external
two_orders = (refl, (refl, tt))

replace_trades_complete_example :
    let trades = order_1 ∷ order_2 ∷ [] in
    let (out, after) = replace_trades offline upbit trades empty_database in
    (new : List Transaction) × (out ≡ ok (sync_result 2 2 0))
    × (after.transactions ≡ filter (of_other_source "upbit") empty_database.transactions ++ new)
    × (length new ≡ 2)
    × ((e : String)
        → has_key "upbit" e after.transactions ≡ elem e (ids_of (map (of_external upbit) trades)))
replace_trades_complete_example =
    replace_trades_complete offline upbit (order_1 ∷ order_2 ∷ []) empty_database two_orders

abbrev opening : ℕ → String → CashTx
opening id key = record {
  id = id;
  kind = deposit;
  amount = pos 9;
  withholding_tax = pos 0;
  currency = "KRW";
  traded_at = 10 - id;
  external_source = some "toss_investment";
  external_id = some key;
}

-- Two openings, the later one first.
abbrev two_openings : List CashTx
two_openings = opening 1 "toss-opening-b" ∷ opening 2 "toss-opening-a" ∷ []

collapse_keeps : collapsed "toss_investment" two_openings ≡ opening 2 "toss-opening-a" ∷ []
unfolding collapsed filter sort
collapse_keeps = refl

abbrev statement : String → ℕ → List ParsedCashTx
statement key at =
    record {
      external_id = key;
      kind = ParsedCashTxKind.deposit;
      amount = pos 9;
      currency = "KRW";
      traded_at = at;
      withholding_tax = pos 0;
    }
    ∷ []

abbrev first_import : ℕ × Database
first_import = import_parsed_cash_txs toss_securities (statement "toss-opening-a" 5) empty_database

abbrev second_import : ℕ × Database
second_import = import_parsed_cash_txs toss_securities (statement "toss-opening-b" 9) first_import.1

-- The later opening is collapsed away, so its statement counts as new whenever it is imported.
collapsed_again :
    (import_parsed_cash_txs toss_securities (statement "toss-opening-b" 9) second_import.1).0 ≡ 1
unfolding import_parsed_cash_txs filter sort
collapsed_again = refl
