-- ===== src/Fx/TradeDate.antt =====
-- Conversion at the rate of a trade's date.
use assetlog.Prelude.{
  ℕ, String, ◌≡◌, ◌≢◌, refl, ap, ◌∙◌, Option, none, some, List, [], ◌∷◌, ◌≤◌, ◌<◌, ◌&&◌, leb,
  length, filter, find, arith, eq_iff, inl, inr, Option-cases, if◌then◌else◌,
}
use assetlog.Prelude.Int.{ℤ, ◌*ℤ◌}
use assetlog.Prelude.Sorting.{sort}
use assetlog.Fx.Rates.{FxRate, has_pair, get_latest, get_at}
use assetlog.Fx.Service.{FxStore, Adapter, supported_currencies, refresh_all, convert, convert_at}
use assetlog.Fx.Refresh.{get_latest-refresh_all, offer, renewed}
use assetlog.Fx.Unique.{UniqueKeys, refresh_all-UniqueKeys}

module _ (b q : String) where
  none_found :
      (rows : List FxRate) → find (has_pair b q) rows ≡ none → filter (has_pair b q) rows ≡ []
  unfolding find filter
  none_found [] e = refl
  none_found (r ∷ rows) e = ground (arith, e, none_found rows)

  none_of :
      (rows : List FxRate)
      → length (filter (has_pair b q) rows) ≤ 0
      → filter (has_pair b q) rows ≡ []
  unfolding filter
  none_of [] h = refl
  none_of (r ∷ rows) h = ground (arith, h, none_of rows)

  one_found :
      (rows : List FxRate) (row : FxRate)
      → length (filter (has_pair b q) rows) ≤ 1
      → find (has_pair b q) rows ≡ some row
      → filter (has_pair b q) rows ≡ row ∷ []
  unfolding find filter
  one_found [] row h e = cc
  one_found (r ∷ rows) row h e = ground (arith, h, e, one_found rows row, none_of rows)

  one_time :
      (at : ℕ) (rows : List FxRate)
      → filter (λ r. has_pair b q r && leb r.fetched_at at) rows
        ≡ filter (λ r. leb r.fetched_at at) (filter (has_pair b q) rows)
  unfolding filter
  one_time at [] = refl
  one_time at (r ∷ rows) = ground (arith, one_time at rows)

  when_fetched : ℕ → Option FxRate → Option FxRate
  when_fetched at none = none
  when_fetched at (some row) = if leb row.fetched_at at then some row else none

  -- With one row per pair, the rate of a date is the latest rate, where that is not too new.
  get_at-get_latest :
      (at : ℕ) (rows : List FxRate)
      → length (filter (has_pair b q) rows) ≤ 1
      → get_at b q at rows ≡ when_fetched at (get_latest b q rows)
  unfolding get_at get_latest when_fetched filter sort
  get_at-get_latest at rows h = elim (Option-cases (find (has_pair b q) rows)) [
    | inl absent ↦ rw (one_time at rows, none_found rows absent, absent) refl
    | inr (row, there) ↦ rw (one_time at rows, one_found rows row h there, there) (ground arith)
  ]

-- After a refresh that got a rate for a pair, an amount converts at that rate, and at no date before
-- the refresh does it convert at all, whatever rates the table had for the pair before.
pub convert_at-refresh_all :
    (adapter : Adapter) (b q : String) (rate amount : ℤ) (at now : ℕ) (s : FxStore)
    → UniqueKeys s
    → b ≢ q
    → offer adapter supported_currencies b q ≡ some rate
    → at < now
    → let after = (refresh_all adapter now s).1 in
      (convert amount b q after ≡ some (amount *ℤ rate)) × (convert_at amount b q at after ≡ none)
unfolding convert convert_at when_fetched
convert_at-refresh_all adapter b q rate amount at now s unique differ given early =
    let after = (refresh_all adapter now s).1 in
    let keys = (refresh_all-UniqueKeys adapter now s unique b q).0 in
    let latest =
      get_latest-refresh_all adapter b q now s
      ∙ ap (renewed b q now (get_latest b q s.fx_rates)) given in
    let dated = get_at-get_latest b q at after.fx_rates keys ∙ ap (when_fetched b q at) latest in
    ground (arith, eq_iff b q, latest, dated)
