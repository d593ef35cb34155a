-- ===== src/Symbols/Tests.antt =====
-- Tests of the symbols, and each property at an input.
use assetlog.Prelude.{String, Bool, ◌≡◌, refl, none, some, [], ◌∷◌, ◌==ₛ◌}
use assetlog.Db.{Database, empty_database, crypto}
use assetlog.Symbols.Text.{strip}
use assetlog.Symbols.Repo.{SymbolCandidate, new_symbol}
use assetlog.Symbols.Service.{Adapters, search_symbols}
use assetlog.Symbols.Unique.{Good, search_symbols_lem}

stripped : strip "  ab c " ≡ "ab c"
unfolding strip
stripped = refl

abbrev candidate : String → SymbolCandidate
candidate symbol = record {
  asset_type = crypto;
  symbol = symbol;
  name = symbol;
  exchange = "UPBIT";
  currency = "KRW";
}

abbrev listed : Database
listed = record empty_database {
  asset_symbols = new_symbol 1 (candidate "BTC") ∷ [];
  next_asset_symbol = 2;
}

-- The texts are compared as they are.
abbrev as_is : String → String → Bool
as_is text q = text ==ₛ q

-- The adapter knows the symbol that the table has.
abbrev knows_btc : Adapters
knows_btc t = some (λ q limit. some (candidate "BTC" ∷ []))

first_page :
    (search_symbols as_is knows_btc (some " BTC") (some crypto) none 1 0 listed).0
    ≡ new_symbol 1 (candidate "BTC") ∷ []
unfolding search_symbols
first_page = refl

-- The second page has the symbol of the first once more.
second_page :
    (search_symbols as_is knows_btc (some " BTC") (some crypto) none 1 1 listed).0
    ≡ new_symbol 1 (candidate "BTC") ∷ []
unfolding search_symbols
second_page = refl

search_symbols_lem_example :
    Good 5 (search_symbols as_is knows_btc (some "ETH") (some crypto) none 5 0 listed)
search_symbols_lem_example =
    search_symbols_lem as_is knows_btc (some "ETH") (some crypto) none 5 0 listed (tt, tt)
