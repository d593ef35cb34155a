-- ===== src/Dividends/Tests.antt =====
-- Tests of the dividends, and each property at an input.
use assetlog.Prelude.{ℕ, ◌≡◌, refl, none, some, [], ◌∷◌, ◌==ₛ◌, if◌then◌else◌}
use assetlog.Prelude.Int.{pos}
use assetlog.Db.{Database, empty_database, us_stock}
use assetlog.Symbols.Repo.{new_symbol}
use assetlog.Dividends.Repo.{DividendQuote}
use assetlog.Dividends.Service.{Adapter, refresh_us_dividends, refresh_kr_dividends, list_dividends}
use assetlog.Dividends.Again.{refresh_dividends-again}

abbrev listed : Database
listed = record empty_database {
  asset_symbols =
      new_symbol 1 (record {
        asset_type = us_stock;
        symbol = "AAPL";
        name = "Apple";
        exchange = "NASDAQ";
        currency = "USD";
      })
      ∷ [];
  next_asset_symbol = 2;
}

abbrev quote : ℕ → ℕ → DividendQuote
quote date amount = record { ex_date = date; amount = pos amount; currency = "USD" }

-- The adapter gives one date twice.
abbrev apple : Adapter
apple symbol = if symbol ==ₛ "AAPL" then some (quote 10 3 ∷ quote 10 4 ∷ quote 20 5 ∷ []) else none

two_new : (refresh_us_dividends apple listed).0 ≡ 2
unfolding refresh_us_dividends
two_new = refl

the_sum :
    (list_dividends (some 1) none none (refresh_us_dividends apple listed).1).1
    ≡ record { asset_symbol_id = 1; total_amount = pos 8; currency = "USD" } ∷ []
unfolding list_dividends refresh_us_dividends
the_sum = refl

refresh_dividends-again_example :
    let us = (refresh_us_dividends apple listed).1 in
    let kr = (refresh_kr_dividends apple listed).1 in
    (refresh_us_dividends apple us ≡ (0, us)) × (refresh_kr_dividends apple kr ≡ (0, kr))
refresh_dividends-again_example = refresh_dividends-again apple listed
