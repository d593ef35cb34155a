-- ===== src/Fx/Snapshots.antt =====
-- The table of snapshots: backend/app/models/fx_rate_snapshot.py and its part of
-- backend/app/repositories/fx_rate.py. Times are in UTC, so `_ensure_utc` keeps them.
use assetlog.Prelude.{
  ℕ, String, Bool, Option, none, some, List, [], ◌∷◌, ◌++◌, ◌&&◌, leb, max, filter, any, get_elem?,
  ◌==◌, ◌==ₛ◌, if◌then◌else◌,
}
use assetlog.Prelude.Int.{ℤ}
use assetlog.Prelude.Keyed.{Keyed, set_key}
use assetlog.Prelude.Sorting.{sort, by_key}

pub record FxRateSnapshot : Type 0 where
  pub base_currency : String
  pub quote_currency : String
  pub rate : ℤ
  pub recorded_at : ℕ

abbrev pub snapshot : String → String → ℤ → ℕ → FxRateSnapshot
snapshot base quote rate at = record {
  base_currency = base;
  quote_currency = quote;
  rate = rate;
  recorded_at = at;
}

abbrev pub of_pair : String → String → FxRateSnapshot → Bool
of_pair base quote s = (s.base_currency ==ₛ base) && (s.quote_currency ==ₛ quote)

abbrev pub time_of : FxRateSnapshot → ℕ
time_of s = s.recorded_at

-- A snapshot that is there already is left as it is.
unfoldable pub insert_snapshot : String → String → ℤ → ℕ → List FxRateSnapshot → List FxRateSnapshot
insert_snapshot base quote rate at rows =
    if any (λ s. of_pair base quote s && (s.recorded_at == at)) rows
    then rows
    else rows ++ snapshot base quote rate at ∷ []

abbrev pub newest_first : FxRateSnapshot → FxRateSnapshot → Bool
newest_first a b = leb b.recorded_at a.recorded_at

-- The snapshots of a pair up to a time, in the table's order.
abbrev pub up_to : String → String → ℕ → List FxRateSnapshot → List FxRateSnapshot
up_to base quote at rows = filter (λ s. of_pair base quote s && leb s.recorded_at at) rows

-- `get_rate_at`: ORDER BY recorded_at DESC LIMIT 1.
unfoldable pub get_rate_at : String → String → ℕ → List FxRateSnapshot → Option FxRateSnapshot
unfolding filter sort
get_rate_at base quote at rows = get_elem? (sort newest_first (up_to base quote at rows)) 0

-- The scan of `get_rates_at_batch` for one timestamp: the last before the first that is later.
unfoldable pub nearest_past :
    ℕ → Option FxRateSnapshot → List FxRateSnapshot → Option FxRateSnapshot
nearest_past at found [] = found
nearest_past at found (s ∷ snaps) =
    let rest = nearest_past at (some s) snaps in if leb s.recorded_at at then rest else found

abbrev pub max_of : ℕ → List ℕ → ℕ
max_of a [] = a
max_of a (b ∷ ats) = max a (max_of b ats)

-- The loop over the timestamps, with what it has resolved.
unfoldable pub resolve_all :
    List FxRateSnapshot → List ℕ → Keyed (Option FxRateSnapshot) → Keyed (Option FxRateSnapshot)
unfolding nearest_past set_key
resolve_all snaps [] resolved = resolved
resolve_all snaps (at ∷ ats) resolved =
    resolve_all snaps ats (set_key at (nearest_past at none snaps) resolved)

unfoldable pub get_rates_at_batch :
    String → String → List ℕ → List FxRateSnapshot → Keyed (Option FxRateSnapshot)
unfolding resolve_all filter sort
get_rates_at_batch base quote [] rows = []
get_rates_at_batch base quote (at ∷ ats) rows =
    resolve_all (sort (by_key time_of) (up_to base quote (max_of at ats) rows)) (at ∷ ats) []
