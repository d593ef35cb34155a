-- ===== src/Upbit/Tests.antt =====
-- Tests of the adapter, and each property at an input.
use assetlog.Prelude.{
  ◌<◌, ◌≤◌, ◌≡◌, refl, String, Option, none, some, List, [], ◌∷◌, ◌++◌, filter, find, length, arith,
  if◌then◌else◌, ◌==ₛ◌,
}
use assetlog.Prelude.Int.{ℤ, pos, ◌*ℤ◌, ◌+ℤ◌, ◌-ℤ◌}
use assetlog.Prelude.Dict.{get_or, lookup, insert, bump}
use assetlog.Db.{buy, sell}
use assetlog.Sync.Records.{ExternalTrade}
use assetlog.Sync.Replacing.{NoRepeat}
use assetlog.Upbit.Raw.{RawOrder, BalanceRow, Python, qty_quantum, parts_at, q}
use assetlog.Upbit.Orders.{fetch_all_closed_orders}
use assetlog.Upbit.Balances.{balance_adjustments, in_api_unit}
use assetlog.Upbit.Cash.{RawCash, CashKind, cash_row, fetch_cash_flow}
use assetlog.Upbit.Once.{uuids, fetch_all_closed_orders-NoRepeat}
use assetlog.Upbit.Adjusted.{net, distance, is_coin, balance_adjustments_close}
use assetlog.Upbit.Pages.{in_pages}

-- Texts that are in capitals, and no dates but one.
abbrev plain : Python
plain = record { upper = λ s. s; from_iso = λ s. if s ==ₛ "2024-09-15" then some 7 else none }

halves_up : (q 2_499_999 qty_quantum ≡ 2) × (q 2_500_000 qty_quantum ≡ 3)
unfolding q
halves_up = (refl, refl)

market : (parts_at "-" "KRW-BTC" ≡ some ("KRW", "BTC")) × (parts_at "-" "KRW-" ≡ none)
unfolding parts_at
market = (refl, refl)

abbrev order : String → RawOrder
order uuid = record {
  uuid = some uuid;
  side = some "bid";
  market = some "KRW-BTC";
  state = some "done";
  executed_volume = some (pos 20_000_000_000_000_000);
  avg_price = none;
  price = some (pos 30_000_000_000_000_000);
  created_at = some "2024-09-15";
}

-- The exchange repeats an order.
abbrev one_page : Option String → Option (List RawOrder)
one_page end_time = some (order "a" ∷ order "b" ∷ order "a" ∷ [])

two_orders : uuids (fetch_all_closed_orders plain one_page) ≡ "a" ∷ "b" ∷ []
unfolding fetch_all_closed_orders
two_orders = refl

fetch_all_closed_orders-NoRepeat_example : NoRepeat (uuids (fetch_all_closed_orders plain one_page))
fetch_all_closed_orders-NoRepeat_example = fetch_all_closed_orders-NoRepeat plain one_page

abbrev history : List ExternalTrade
history =
    record {
      external_id = "a";
      symbol = "BTC";
      quote_currency = "KRW";
      side = buy;
      quantity = pos 20_000_000_000;
      price = pos 3_000_000;
      traded_at = 7;
      fee = pos 0;
    }
    ∷ []

-- Half a coin was sent away.
abbrev btc : BalanceRow
btc = record {
  currency = some "BTC";
  balance = some (pos 15_000_000_000_000_000);
  avg_buy_price = none;
}

abbrev account : List BalanceRow
account = record { currency = some "KRW"; balance = some (pos 5); avg_buy_price = none } ∷ btc ∷ []

half_sold :
    balance_adjustments plain 9 (some account) history
    ≡ record {
      external_id = "upbit:adjust:BTC";
      symbol = "BTC";
      quote_currency = "KRW";
      side = sell;
      quantity = pos 5_000_000_000;
      price = pos 1_000_000;
      traded_at = 9;
      fee = pos 0;
    }
      ∷ []
unfolding balance_adjustments get_or bump lookup insert ◌+ℤ◌ ◌-ℤ◌ ◌*ℤ◌
half_sold = refl

once : length (filter (is_coin plain 9 "BTC") account) ≤ 1
unfolding filter
once = omega arith

listed : find (is_coin plain 9 "BTC") account ≡ some btc
unfolding find
listed = refl

balance_adjustments_close_example :
    distance
      (pos 15_000_000_000_000_000)
      (in_api_unit (net "BTC" (history ++ balance_adjustments plain 9 (some account) history)))
    < qty_quantum
balance_adjustments_close_example =
    balance_adjustments_close plain 9 account history "BTC" btc 15_000_000_000_000_000 once listed
      refl

abbrev paid : String → Option ℤ → RawCash
paid uuid amount = record {
  uuid = some uuid;
  amount = some amount;
  done_at = some "";
  created_at = some "2024-09-15";
}

-- One amount that is no number loses every row, of both directions.
all_lost :
    (fetch_cash_flow plain (in_pages (paid "a" (some (pos 5)) ∷ [])) (in_pages [])
      ≡ cash_row CashKind.deposit "a" 5 7 ∷ [])
    × (fetch_cash_flow plain
          (in_pages (paid "a" (some (pos 5)) ∷ []))
          (in_pages (paid "b" none ∷ []))
        ≡ [])
unfolding fetch_cash_flow
all_lost = (refl, refl)
