-- ===== src/Upbit/Orders.antt =====
-- The history of closed orders.
use assetlog.Prelude.{
  ℕ, zero, suc, ◌+◌, ◌*◌, String, Bool, false, Option, none, some, List, [], ◌∷◌, ◌++◌, length, ltb,
  ◌==ₛ◌, ◌||◌, ◌&&◌, if◌then◌else◌,
}
use assetlog.Prelude.Int.{ℤ, pos}
use assetlog.Db.{buy, sell}
use assetlog.Sync.Records.{ExternalTrade}
use assetlog.Sync.Trades.{elem}
use assetlog.Upbit.Raw.{
  RawOrder, RawTrade, Python, q, qty_quantum, price_quantum, text_ltb, parts_at, positive, or_price,
}

-- 1970-01-01, as a datetime.
abbrev epoch : ℕ
epoch = 62_135_596_800_000_000

-- `seen_uuids`, `trades` and, within a page, `oldest_iso`.
pub record Paging : Type 0 where
  pub seen : List String
  pub trades : List ExternalTrade
  pub oldest : Option String

-- A market is QUOTE-BASE.
abbrev pub swapped : Option (String × String) → Option (String × String)
swapped none = none
swapped (some (quote, base)) = some (base, quote)

abbrev pub older : Option String → Option String → Option String
older none oldest = oldest
older (some created_at) none = some created_at
older (some created_at) (some oldest) =
    if text_ltb created_at oldest then some created_at else some oldest

abbrev pub with_trade : Option ExternalTrade → List ExternalTrade → List ExternalTrade
with_trade none trades = trades
with_trade (some trade) trades = trades ++ trade ∷ []

abbrev same_cursor : String → Option String → Bool
same_cursor oldest none = false
same_cursor oldest (some end_time) = oldest ==ₛ end_time

-- The next `end_time`, or none where the loop breaks.
abbrev pub next_cursor : ℕ → Option String → Option String → Option String
next_cursor raw_count none end_time = none
next_cursor raw_count (some oldest) end_time =
    if ltb raw_count 100 || same_cursor oldest end_time then none else some oldest

abbrev pub max_pages : ℕ
max_pages = 200

-- `_map_trade`
abbrev first_number : Option ℤ → Option ℤ → Option ℤ
first_number none b = b
first_number (some a) b = some a

abbrev pair_of : Option String → Option (String × String)
pair_of none = none
pair_of (some symbol) = parts_at "/" symbol

-- Milliseconds, as a datetime.
abbrev from_timestamp : Option ℕ → Option ℕ
from_timestamp none = none
from_timestamp (some ms) = some (epoch + ms * 1000)

module _ (py : Python) where
  -- A trade, when all that it is made of is there.
  abbrev pub trade_of :
      String
      → Bool
      → Option (String × String)
      → Option ℕ
      → Option ℕ
      → Option ℕ
      → Option ExternalTrade
  trade_of id buys (some (base, quote)) (some amount) (some price) (some at) = some (record {
    external_id = id;
    symbol = py.upper base;
    quote_currency = py.upper quote;
    side = if buys then buy else sell;
    quantity = pos (q amount qty_quantum);
    price = pos (q price price_quantum);
    traded_at = at;
    fee = pos 0;
  })
  trade_of id buys none amount price at = none
  trade_of id buys (some parts) none price at = none
  trade_of id buys (some parts) (some amount) none at = none
  trade_of id buys (some parts) (some amount) (some price) none = none

  abbrev pub time_of : Option String → Option ℕ
  time_of none = none
  time_of (some created_at) = py.from_iso created_at

  unfoldable pub native_trade : String → String → String → RawOrder → Option ExternalTrade
  unfolding parts_at q
  native_trade uuid side market raw =
      trade_of uuid (side ==ₛ "bid") (swapped (parts_at "-" market)) (positive raw.executed_volume)
        (positive (or_price raw.avg_price raw.price)) (time_of raw.created_at)

  -- `_map_native_order`
  abbrev pub native_order :
      Option String
      → Option String
      → Option String
      → Option String
      → RawOrder
      → Option ExternalTrade
  native_order (some uuid) (some side) (some market) (some state) raw =
      if (state ==ₛ "done") && ((side ==ₛ "bid") || (side ==ₛ "ask"))
      then native_trade uuid side market raw
      else none
  native_order none side market state raw = none
  native_order (some uuid) none market state raw = none
  native_order (some uuid) (some side) none state raw = none
  native_order (some uuid) (some side) (some market) none raw = none

  abbrev pub map_native_order : RawOrder → Option ExternalTrade
  map_native_order raw = native_order raw.uuid raw.side raw.market raw.state raw

  -- One entry of a page.
  abbrev pub scan_new : Option String → RawOrder → Paging → Paging
  scan_new none raw p = p
  scan_new (some uuid) raw p = if elem uuid p.seen then p else record {
    seen = uuid ∷ p.seen;
    trades = with_trade (map_native_order raw) p.trades;
    oldest = older raw.created_at p.oldest;
  }

  unfoldable pub scan_page : List RawOrder → Paging → Paging
  unfolding native_trade
  scan_page [] p = p
  scan_page (raw ∷ raws) p = scan_page raws (scan_new raw.uuid raw p)

  -- The pages from one on; an empty page, or one that cannot be fetched, ends the loop.
  unfoldable pub fetch_pages :
      (Option String → Option (List RawOrder)) → ℕ → Option String → Paging → List ExternalTrade
  unfolding scan_page
  fetch_pages orders zero end_time p = p.trades
  fetch_pages orders (suc pages) end_time p = elim (orders end_time) [
    | none ↦ p.trades
    | some [] ↦ p.trades
    | some (raw ∷ raws) ↦
        let p' = scan_page (raw ∷ raws) (record p { oldest = none }) in
        elim (next_cursor (length (raw ∷ raws)) p'.oldest end_time) [
          | none ↦ p'.trades
          | some cursor ↦ fetch_pages orders pages (some cursor) p'
        ]
  ]

  unfoldable pub fetch_all_closed_orders :
      (Option String → Option (List RawOrder)) → List ExternalTrade
  unfolding fetch_pages
  fetch_all_closed_orders orders =
      fetch_pages orders max_pages none (record { seen = []; trades = []; oldest = none })

  abbrev ccxt_trade : Option String → Option String → RawTrade → Option ExternalTrade
  ccxt_trade none side raw = none
  ccxt_trade (some id) none raw = none
  ccxt_trade (some id) (some side) raw =
      if (side ==ₛ "buy") || (side ==ₛ "sell")
      then trade_of id (side ==ₛ "buy") (pair_of raw.symbol)
          (positive (first_number raw.filled raw.amount))
          (positive (first_number raw.average raw.price)) (from_timestamp raw.timestamp)
      else none

  unfoldable pub map_trade : RawTrade → Option ExternalTrade
  unfolding parts_at q
  map_trade raw = ccxt_trade raw.id raw.side raw

  abbrev map_trades : List RawTrade → List ExternalTrade
  map_trades [] = []
  map_trades (raw ∷ raws) =
      let rest = map_trades raws in elim (map_trade raw) [ none ↦ rest | some t ↦ t ∷ rest ]

  -- A market whose orders cannot be fetched is skipped.
  unfoldable pub fetch_orders_for_markets :
      (String → Option (List RawTrade)) → List String → List ExternalTrade
  unfolding map_trade
  fetch_orders_for_markets closed_orders [] = []
  fetch_orders_for_markets closed_orders (market ∷ markets) =
      let rest = fetch_orders_for_markets closed_orders markets in
      elim (closed_orders market) [ none ↦ rest | some raws ↦ map_trades raws ++ rest ]
