-- ===== src/Fx/Tests.antt =====
-- Tests of the exchange rates, and each property at an input.
use assetlog.Prelude.{◌≡◌, refl, none, some, [], ◌∷◌, filter, arith, eq_iff, ◌==ₛ◌, if◌then◌else◌}
use assetlog.Prelude.Int.{pos, ◌*ℤ◌}
use assetlog.Prelude.Dict.{insert}
use assetlog.Fx.Rates.{get_latest, upsert}
use assetlog.Fx.Snapshots.{insert_snapshot}
use assetlog.Fx.Service.{
  FxStore, Adapter, supported_currencies, refresh_all, convert, convert_at,
  get_all_rates_for_conversion,
}
use assetlog.Fx.Refresh.{get_latest-refresh_all, offer, renewed}
use assetlog.Fx.Unique.{UniqueKeys, refresh_all-UniqueKeys}
use assetlog.Fx.TradeDate.{convert_at-refresh_all}

-- The USD fetch answers, and no other.
abbrev only_usd : Adapter
only_usd base quotes =
    if base ==ₛ "USD"
    then some (("KRW", pos 138_000_000_000) ∷ ("EUR", pos 92_000_000) ∷ [])
    else none

abbrev empty_store : FxStore
empty_store = record { fx_rates = []; fx_rate_snapshots = [] }

abbrev refreshed : FxStore
refreshed = (refresh_all only_usd 50 empty_store).1

two_pairs : (refresh_all only_usd 50 empty_store).0 ≡ 2
unfolding refresh_all filter
two_pairs = refl

usd_krw : convert (pos 2) "USD" "KRW" refreshed ≡ some (pos 276_000_000_000)
unfolding convert refresh_all upsert insert_snapshot get_latest ◌*ℤ◌
usd_krw = refl

no_partial : get_all_rates_for_conversion ("USD" ∷ "EUR" ∷ []) "KRW" refreshed ≡ none
unfolding get_all_rates_for_conversion refresh_all upsert insert_snapshot get_latest insert
no_partial = refl

get_latest-refresh_all_example :
    get_latest "USD" "KRW" refreshed.fx_rates
    ≡ renewed "USD" "KRW" 50
        (get_latest "USD" "KRW" [])
        (offer only_usd supported_currencies "USD" "KRW")
get_latest-refresh_all_example = get_latest-refresh_all only_usd "USD" "KRW" 50 empty_store

empty-UniqueKeys : UniqueKeys empty_store
unfolding filter
empty-UniqueKeys b q = (omega arith, tt)

refreshed-UniqueKeys : UniqueKeys refreshed
refreshed-UniqueKeys = refresh_all-UniqueKeys only_usd 50 empty_store empty-UniqueKeys

convert_at-refresh_all_example :
    let after = (refresh_all only_usd 90 refreshed).1 in
    (convert (pos 7) "USD" "KRW" after ≡ some (pos 7 *ℤ pos 138_000_000_000))
    × (convert_at (pos 7) "USD" "KRW" 60 after ≡ none)
convert_at-refresh_all_example =
    convert_at-refresh_all only_usd "USD" "KRW" (pos 138_000_000_000) (pos 7) 60 90 refreshed
      refreshed-UniqueKeys (λ e. ground (arith, (eq_iff "USD" "KRW").1 e)) refl (omega arith)
