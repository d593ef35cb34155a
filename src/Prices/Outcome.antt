-- ===== src/Prices/Outcome.antt =====
-- What a refresh reports, and the price points that it leaves.
use assetlog.Prelude.{◌==◌, ℕ, Option, none, some, List, [], ◌∷◌, find, if◌then◌else◌}
use assetlog.History.Rows.{PricePoint}
use assetlog.Prices.Service.{CachedSymbol, PriceQuote, same_day, point_of}

-- The point of a symbol and a day.
abbrev pub point_on : ℕ → ℕ → List PricePoint → Option PricePoint
point_on id day points = find (same_day id day) points

-- The last quote of a symbol on a day.
unfoldable pub last_quote : ℕ → ℕ → List PriceQuote → Option PricePoint
last_quote id day [] = none
last_quote id day (q ∷ quotes) =
    let later = last_quote id day quotes in
    elim later [
      | none ↦ if same_day id day (point_of q) then some (point_of q) else none
      | some p ↦ some p
    ]

abbrev pub or_before : Option PricePoint → Option PricePoint → Option PricePoint
or_before none before = before
or_before (some p) before = some p

-- The last quote of a symbol, and a row of the symbols with the price that it brings.
unfoldable pub last_for : ℕ → List PriceQuote → Option PriceQuote
last_for id [] = none
last_for id (q ∷ quotes) =
    let later = last_for id quotes in
    elim later [ none ↦ if id == q.ref.asset_symbol_id then some q else none | some p ↦ some p ]

abbrev pub with_quote : Option PriceQuote → CachedSymbol → CachedSymbol
with_quote none row = row
with_quote (some q) row = record {
  ref = row.ref;
  last_price = some q.price;
  last_price_refreshed_at = some q.fetched_at;
}

abbrev pub repriced : List PriceQuote → CachedSymbol → CachedSymbol
repriced quotes row = with_quote (last_for row.ref.asset_symbol_id quotes) row
