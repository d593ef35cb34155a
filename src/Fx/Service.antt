-- ===== src/Fx/Service.antt =====
-- backend/app/services/fx_rate.py. The adapter is a parameter: the rates that it gives for a base, in
-- the column's units, or none where it raises. A conversion is none where the service raises
-- FxRateNotAvailableError; its result is in 10^-8 of the amount's unit. The log's count of snapshots
-- is left out.
use assetlog.Prelude.{
  ℕ, String, not, Option, none, some, List, [], ◌∷◌, map, ◌+◌, length, filter, ◌==ₛ◌, if◌then◌else◌,
}
use assetlog.Prelude.Int.{ℤ, pos, ◌*ℤ◌}
use assetlog.Prelude.Dict.{Dict, insert}
use assetlog.Prelude.Keyed.{Keyed, set_key}
use assetlog.Fx.Rates.{FxRate, upsert, get_latest, get_at}
use assetlog.Fx.Snapshots.{FxRateSnapshot, insert_snapshot, get_rates_at_batch}

pub record FxStore : Type 0 where
  pub fx_rates : List FxRate
  pub fx_rate_snapshots : List FxRateSnapshot

abbrev pub Adapter : Type 0
Adapter = String → List String → Option (Dict ℤ)

abbrev pub supported_currencies : List String
supported_currencies = "USD" ∷ "KRW" ∷ "EUR" ∷ []

abbrev pub quotes_for : String → List String
quotes_for base = filter (λ c. not (c ==ₛ base)) supported_currencies

-- The loop over the rates of one base.
unfoldable pub store_rates : String → ℕ → Dict ℤ → FxStore → FxStore
unfolding upsert insert_snapshot
store_rates base now [] s = s
store_rates base now ((quote, rate) ∷ rates) s = store_rates base now rates (record {
  fx_rates = upsert base quote rate now s.fx_rates;
  fx_rate_snapshots = insert_snapshot base quote rate now s.fx_rate_snapshots;
})

-- One base: with the number of pairs that it stores. A fetch that fails is skipped.
abbrev pub refresh_base : Option (Dict ℤ) → String → ℕ → FxStore → ℕ × FxStore
refresh_base none base now s = (0, s)
refresh_base (some rates) base now s = (length rates, store_rates base now rates s)

unfoldable pub refresh_bases : Adapter → ℕ → List String → FxStore → ℕ × FxStore
unfolding store_rates filter
refresh_bases adapter now [] s = (0, s)
refresh_bases adapter now (base ∷ bases) s =
    let (n, s') = refresh_base (adapter base (quotes_for base)) base now s in
    let (m, last) = refresh_bases adapter now bases s' in (n + m, last)

unfoldable pub refresh_all : Adapter → ℕ → FxStore → ℕ × FxStore
unfolding refresh_bases
refresh_all adapter now s = refresh_bases adapter now supported_currencies s

-- `Decimal("1")`, as a rate.
abbrev pub one : ℤ
one = pos 100_000_000

abbrev times_rate : ℤ → Option FxRate → Option ℤ
times_rate amount none = none
times_rate amount (some row) = some (amount *ℤ row.rate)

unfoldable pub convert : ℤ → String → String → FxStore → Option ℤ
unfolding get_latest ◌*ℤ◌
convert amount from_currency to_currency s =
    if from_currency ==ₛ to_currency
    then some (amount *ℤ one)
    else times_rate amount (get_latest from_currency to_currency s.fx_rates)

unfoldable pub convert_at : ℤ → String → String → ℕ → FxStore → Option ℤ
unfolding get_at ◌*ℤ◌
convert_at amount from_currency to_currency at s =
    if from_currency ==ₛ to_currency
    then some (amount *ℤ one)
    else times_rate amount (get_at from_currency to_currency at s.fx_rates)

-- The rate of one currency; none ends the loop with None.
abbrev pub rate_to : String → String → FxStore → Option ℤ
rate_to to_currency currency s =
    if currency ==ₛ to_currency
    then some one
    else elim (get_latest currency to_currency s.fx_rates) [
      | none ↦ none
      | some row ↦ some row.rate
    ]

unfoldable pub rates_from : List String → String → Dict ℤ → FxStore → Option (Dict ℤ)
unfolding get_latest insert
rates_from [] to_currency rates s = some rates
rates_from (currency ∷ rest) to_currency rates s = elim (rate_to to_currency currency s) [
  | none ↦ none
  | some rate ↦ rates_from rest to_currency (insert currency rate rates) s
]

unfoldable pub get_all_rates_for_conversion : List String → String → FxStore → Option (Dict ℤ)
unfolding rates_from
get_all_rates_for_conversion from_currencies to_currency s =
    rates_from from_currencies to_currency [] s

abbrev pub rate_of : Option FxRateSnapshot → Option ℤ
rate_of none = none
rate_of (some snap) = some snap.rate

-- `{ts: Decimal("1") for ts in timestamps}`
abbrev pub ones : List ℕ → Keyed (Option ℤ) → Keyed (Option ℤ)
ones [] rates = rates
ones (ts ∷ timestamps) rates = ones timestamps (set_key ts (some one) rates)

unfoldable pub get_historical_rates_at : String → String → List ℕ → FxStore → Keyed (Option ℤ)
unfolding get_rates_at_batch set_key
get_historical_rates_at from_currency to_currency timestamps s =
    if from_currency ==ₛ to_currency
    then ones timestamps []
    else map (λ (ts, snap). (ts, rate_of snap))
        (get_rates_at_batch from_currency to_currency timestamps s.fx_rate_snapshots)
