-- ===== src/Fx/Refresh.antt =====
-- The table of cached rates as a map from pairs to rates, and the unique keys of both tables.
use assetlog.Prelude.{
  ℕ, String, Bool, ◌≡◌, refl, Option, none, some, List, [], ◌∷◌, ◌&&◌, find, any, arith, eq_iff,
  ◌==ₛ◌, if◌then◌else◌,
}
use assetlog.Prelude.Int.{ℤ}
use assetlog.Prelude.Dict.{Dict}
use assetlog.Fx.Rates.{FxRate, fx_rate, upsert, get_latest}
use assetlog.Fx.Service.{
  FxStore, Adapter, supported_currencies, quotes_for, store_rates, refresh_base, refresh_bases,
  refresh_all,
}

abbrev pub same_pair : String → String → String → String → Bool
same_pair base quote b q = (base ==ₛ b) && (quote ==ₛ q)

get_latest-upsert :
    (base quote b q : String) (rate : ℤ) (at : ℕ) (rows : List FxRate)
    → get_latest b q (upsert base quote rate at rows) ≡ (
        if same_pair base quote b q then some (fx_rate base quote rate at) else get_latest b q rows)
unfolding get_latest upsert find
get_latest-upsert base quote b q rate at [] = refl
get_latest-upsert base quote b q rate at (r ∷ rows) = ground (
  arith,
  eq_iff r.base_currency base,
  eq_iff r.quote_currency quote,
  eq_iff r.base_currency b,
  eq_iff r.quote_currency q,
  eq_iff base b,
  eq_iff quote q,
  get_latest-upsert base quote b q rate at rows,
)

-- The rate that a fetch gives for a quote: the last, if it should name one twice.
abbrev pub last_rate : String → Dict ℤ → Option ℤ
last_rate q [] = none
last_rate q ((quote, rate) ∷ rates) =
    let later = last_rate q rates in
    elim later [ none ↦ if quote ==ₛ q then some rate else none | some r ↦ some r ]

-- The row that a rate puts in the place of what there was.
abbrev pub renewed : String → String → ℕ → Option FxRate → Option ℤ → Option FxRate
renewed b q now before none = before
renewed b q now before (some rate) = some (fx_rate b q rate now)

abbrev offered : String → Option (Dict ℤ) → Option ℤ
offered q none = none
offered q (some rates) = last_rate q rates

-- What the adapter offers for a pair, when all bases of the list are asked for.
abbrev pub offer : Adapter → List String → String → String → Option ℤ
offer adapter bases b q =
    if any (λ base. base ==ₛ b) bases then offered q (adapter b (quotes_for b)) else none

get_latest-store_rates :
    (base b q : String) (now : ℕ) (rates : Dict ℤ) (s : FxStore)
    → get_latest b q (store_rates base now rates s).fx_rates ≡ (
        if base ==ₛ b
        then renewed b q now (get_latest b q s.fx_rates) (last_rate q rates)
        else get_latest b q s.fx_rates)
unfolding store_rates
get_latest-store_rates base b q now [] s = ground arith
get_latest-store_rates base b q now ((quote, rate) ∷ rates) s =
    let s' = store_rates base now ((quote, rate) ∷ []) s in
    ground (
      arith,
      eq_iff base b,
      eq_iff quote q,
      get_latest-upsert base quote b q rate now s.fx_rates,
      get_latest-store_rates base b q now rates s',
    )

get_latest-refresh_base :
    (rates : Option (Dict ℤ)) (base b q : String) (now : ℕ) (s : FxStore)
    → get_latest b q (refresh_base rates base now s).1.fx_rates ≡ (
        if base ==ₛ b
        then renewed b q now (get_latest b q s.fx_rates) (offered q rates)
        else get_latest b q s.fx_rates)
get_latest-refresh_base none base b q now s = ground arith
get_latest-refresh_base (some rates) base b q now s = get_latest-store_rates base b q now rates s

renewed_twice :
    (b q : String) (now : ℕ) (r : Option FxRate) (o : Option ℤ)
    → renewed b q now (renewed b q now r o) o ≡ renewed b q now r o
renewed_twice b q now r none = refl
renewed_twice b q now r (some rate) = refl

get_latest-refresh_bases :
    (adapter : Adapter) (b q : String) (now : ℕ) (bases : List String) (s : FxStore)
    → get_latest b q (refresh_bases adapter now bases s).1.fx_rates
      ≡ renewed b q now (get_latest b q s.fx_rates) (offer adapter bases b q)
unfolding refresh_bases
get_latest-refresh_bases adapter b q now [] s = refl
get_latest-refresh_bases adapter b q now (base ∷ bases) s =
    let rates = adapter base (quotes_for base) in
    let s' = (refresh_base rates base now s).1 in
    ground (
      arith,
      eq_iff base b,
      get_latest-refresh_base rates base b q now s,
      get_latest-refresh_bases adapter b q now bases s',
      renewed_twice b q now (get_latest b q s.fx_rates) (offered q rates),
    )

-- A refresh is an update of the map from pairs to rates: a pair for whose base the adapter gives a
-- rate has that rate, fetched now; every other pair, also where the fetch for its base fails, has
-- what it had.
pub get_latest-refresh_all :
    (adapter : Adapter) (b q : String) (now : ℕ) (s : FxStore)
    → get_latest b q (refresh_all adapter now s).1.fx_rates
      ≡ renewed b q now (get_latest b q s.fx_rates) (offer adapter supported_currencies b q)
unfolding refresh_all
get_latest-refresh_all adapter b q now s =
    get_latest-refresh_bases adapter b q now supported_currencies s
