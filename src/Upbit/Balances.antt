-- ===== src/Upbit/Balances.antt =====
-- The adjustments to the account's balances, and the whole of `_trades_sync`. Nothing changes in the
-- account between two of its calls.
use Prim.Native.String.{◌++◌ as concat}
use assetlog.Prelude.{
  ℕ, ◌+◌, String, not, Option, none, some, List, [], ◌∷◌, ◌++◌, ltb, ◌==ₛ◌, ◌&&◌, if◌then◌else◌,
}
use assetlog.Prelude.Int.{ℤ, pos, negsuc, pos_part, neg_part, ◌-ℤ◌, ◌*ℤ◌, ltb_ℤ}
use assetlog.Prelude.Dict.{Dict, get_or, bump}
use assetlog.Prelude.Sorting.{sort}
use assetlog.Db.{buy, sell, is_buy}
use assetlog.Sync.Records.{ExternalTrade}
use assetlog.Sync.Trades.{elem}
use assetlog.Upbit.Raw.{
  BalanceRow, Client, Python, q, qty_quantum, price_quantum, text_ltb, positive,
}
use assetlog.Upbit.Orders.{fetch_all_closed_orders, fetch_orders_for_markets}

-- What a trade adds to its coin.
abbrev pub signed : ExternalTrade → ℤ
signed t = if is_buy t.side then t.quantity else pos 0 -ℤ t.quantity

-- `history_qty`
unfoldable pub history_qty : List ExternalTrade → Dict ℤ → Dict ℤ
unfolding bump ◌-ℤ◌
history_qty [] d = d
history_qty (t ∷ history) d = history_qty history (bump t.symbol (signed t) d)

-- A quantity in the API's unit.
abbrev pub in_api_unit : ℤ → ℤ
in_api_unit n = n *ℤ pos 1_000_000

-- The price of a coin without a cost is 1.
abbrev pub price_or_one : Option ℕ → ℕ
price_or_one none = 10_000_000_000_000_000
price_or_one (some price) = price

-- One row's adjustment, if it has any.
unfoldable pub adjust : ℕ → Dict ℤ → String → Option ℤ → Option ℤ → Option ExternalTrade
unfolding get_or q ◌-ℤ◌ ◌*ℤ◌
adjust now held symbol none avg_buy = none
adjust now held symbol (some (negsuc n)) avg_buy = none
adjust now held symbol (some (pos actual)) avg_buy =
    let diff = pos actual -ℤ in_api_unit (get_or symbol (pos 0) held) in
    let size = pos_part diff + neg_part diff in
    if ltb size qty_quantum
    then none
    else some (record {
      external_id = concat "upbit:adjust:" symbol;
      symbol = symbol;
      quote_currency = "KRW";
      side = if ltb_ℤ (pos 0) diff then buy else sell;
      quantity = pos (q size qty_quantum);
      price = pos (q (price_or_one (positive avg_buy)) price_quantum);
      traded_at = now;
      fee = pos 0;
    })

abbrev pub put_first : Option ExternalTrade → List ExternalTrade → List ExternalTrade
put_first none out = out
put_first (some t) out = t ∷ out

module _ (py : Python) where
  -- The coin of a row that the loop looks at.
  abbrev pub coin_of : BalanceRow → Option String
  coin_of row = elim row.currency [
    | none ↦ none
    | some currency ↦ if py.upper currency ==ₛ "KRW" then none else some (py.upper currency)
  ]

module _ (py : Python) (now : ℕ) where
  abbrev pub adjust_row : Dict ℤ → Option String → BalanceRow → Option ExternalTrade
  adjust_row held none row = none
  adjust_row held (some symbol) row = adjust now held symbol row.balance row.avg_buy_price

  unfoldable pub adjust_rows : Dict ℤ → List BalanceRow → List ExternalTrade
  unfolding adjust
  adjust_rows held [] = []
  adjust_rows held (row ∷ info) =
      put_first (adjust_row held (coin_of py row) row) (adjust_rows held info)

  unfoldable pub balance_adjustments :
      Option (List BalanceRow) → List ExternalTrade → List ExternalTrade
  unfolding adjust_rows history_qty
  balance_adjustments none history = []
  balance_adjustments (some info) history = adjust_rows (history_qty history []) info

-- The first market of a coin, among the quotes in their order.
abbrev first_market : List String → List String → Option String
first_market [] available = none
first_market (symbol ∷ symbols) available =
    let later = first_market symbols available in
    if elem symbol available then some symbol else later

abbrev markets_of : String → List String
markets_of coin = concat coin "/KRW" ∷ concat coin "/BTC" ∷ concat coin "/USDT" ∷ []

abbrev primary_markets : List String → List String → List String
primary_markets available [] = []
primary_markets available (coin ∷ coins) =
    let rest = primary_markets available coins in
    elim (first_market (markets_of coin) available) [ none ↦ rest | some m ↦ m ∷ rest ]

abbrev held_coins : List (String × ℤ) → List String
held_coins [] = []
held_coins ((asset, val) ∷ total) =
    let rest = held_coins total in
    if ltb_ℤ (pos 0) val && not (asset ==ₛ "KRW") then asset ∷ rest else rest

unfoldable pub fetch_history_per_held_market : Python → Client → List ExternalTrade
unfolding fetch_orders_for_markets sort
fetch_history_per_held_market py client =
    fetch_orders_for_markets py client.closed_orders
      (primary_markets client.markets (sort (λ a b. not (text_ltb b a)) (held_coins client.total)))

abbrev or_per_market : Python → Client → List ExternalTrade → List ExternalTrade
or_per_market py client [] = fetch_history_per_held_market py client
or_per_market py client (t ∷ history) = t ∷ history

-- The trades of the account, before `fetch_trades` sorts them.
abbrev pub history_of : Python → Client → List ExternalTrade
history_of py client = or_per_market py client (fetch_all_closed_orders py client.orders_closed)

unfoldable pub trades_sync : Python → ℕ → Client → List ExternalTrade
unfolding fetch_all_closed_orders fetch_history_per_held_market balance_adjustments
trades_sync py now client =
    let history = history_of py client in history ++ balance_adjustments py now client.info history
