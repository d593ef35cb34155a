-- ===== src/Prices/Tests.antt =====
-- Tests of the price refresh, and each property at an input.
use assetlog.Prelude.{ℕ, ◌≡◌, refl, none, [], ◌∷◌, map, ◌==ₛ◌, if◌then◌else◌}
use assetlog.Prelude.Dict.{insert, get_or, lookup}
use assetlog.Db.{crypto, us_stock}
use assetlog.Prices.Service.{
  SymbolRef, PriceQuote, raised, fetched, Adapters, PriceStore, CachedSymbol, refresh_all_prices,
}

abbrev btc : SymbolRef
btc = record { asset_type = crypto; symbol = "BTC"; exchange = "UPBIT"; asset_symbol_id = 1 }

abbrev aapl : SymbolRef
aapl = record { asset_type = us_stock; symbol = "AAPL"; exchange = "NASDAQ"; asset_symbol_id = 2 }

abbrev quote : ℕ → SymbolRef → PriceQuote
quote at ref = record { ref = ref; price = 50; fetched_at = at }

-- Coins are answered for, and the stocks' adapter raises.
abbrev adapters : Adapters
adapters asset_type refs =
    if asset_type ==ₛ "crypto"
    then fetched (record { successes = map (quote 9) refs; failures = [] })
    else raised "TimeoutError"

abbrev unpriced : SymbolRef → CachedSymbol
unpriced ref = record { ref = ref; last_price = none; last_price_refreshed_at = none }

abbrev store : PriceStore
store = record {
  asset_symbols = unpriced btc ∷ unpriced aapl ∷ [];
  price_points = record { asset_symbol_id = 1; fetched_at = 5; price = 40 } ∷ [];
}

one_failed : (refresh_all_prices adapters store).0 ≡ record {
  total = 2;
  success = 1;
  failed = 1;
  failures = record { ref = aapl; error_class = "TimeoutError" } ∷ [];
}
unfolding refresh_all_prices insert get_or lookup
one_failed = refl

overwritten :
    (refresh_all_prices adapters store).1.price_points
    ≡ record { asset_symbol_id = 1; fetched_at = 9; price = 50 } ∷ []
unfolding refresh_all_prices insert get_or lookup
overwritten = refl
