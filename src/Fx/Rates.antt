-- ===== src/Fx/Rates.antt =====
-- The table of cached rates: backend/app/models/fx_rate.py and its part of
-- backend/app/repositories/fx_rate.py. A rate is an integer number of 10^-8. The primary key and
-- created_at, which no query reads, are left out. `upsert` is the statement that MySQL runs.
use assetlog.Prelude.{
  ℕ, String, Bool, Option, List, [], ◌∷◌, ◌&&◌, leb, filter, find, get_elem?, ◌==ₛ◌, if◌then◌else◌,
}
use assetlog.Prelude.Int.{ℤ}
use assetlog.Prelude.Sorting.{sort}

pub record FxRate : Type 0 where
  pub base_currency : String
  pub quote_currency : String
  pub rate : ℤ
  pub fetched_at : ℕ

abbrev pub fx_rate : String → String → ℤ → ℕ → FxRate
fx_rate base quote rate at = record {
  base_currency = base;
  quote_currency = quote;
  rate = rate;
  fetched_at = at;
}

abbrev pub has_pair : String → String → FxRate → Bool
has_pair base quote r = (r.base_currency ==ₛ base) && (r.quote_currency ==ₛ quote)

-- INSERT ... ON DUPLICATE KEY UPDATE rate, fetched_at, with the unique key of the pair.
unfoldable pub upsert : String → String → ℤ → ℕ → List FxRate → List FxRate
upsert base quote rate at [] = fx_rate base quote rate at ∷ []
upsert base quote rate at (r ∷ rows) =
    let rest = upsert base quote rate at rows in
    if has_pair base quote r then record r { rate = rate; fetched_at = at } ∷ rows else r ∷ rest

unfoldable pub get_latest : String → String → List FxRate → Option FxRate
unfolding find
get_latest base quote rows = find (has_pair base quote) rows

abbrev pub latest_first : FxRate → FxRate → Bool
latest_first a b = leb b.fetched_at a.fetched_at

-- `get_at`: ORDER BY fetched_at DESC LIMIT 1.
unfoldable pub get_at : String → String → ℕ → List FxRate → Option FxRate
unfolding filter sort
get_at base quote at rows =
    get_elem? (sort latest_first (filter (λ r. has_pair base quote r && leb r.fetched_at at) rows))
      0
