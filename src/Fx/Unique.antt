-- ===== src/Fx/Unique.antt =====
-- The unique keys of the two tables, which every write keeps.
use assetlog.Prelude.{
  ℕ, String, ◌≡◌, List, [], ◌∷◌, ◌++◌, ◌≤◌, false, max, ◌&&◌, All, All-append, length, filter, any,
  arith, eq_iff, ◌==◌, ◌==ₛ◌, if◌then◌else◌, filter-append, append-nil, Bool-cases, Option-cases,
  inl, inr, ◌≢◌,
}
use assetlog.Prelude.Int.{ℤ}
use assetlog.Prelude.Dict.{Dict}
use assetlog.Prelude.Table.{DistinctIds}
use assetlog.Fx.Rates.{FxRate, has_pair, upsert}
use assetlog.Fx.Snapshots.{FxRateSnapshot, snapshot, of_pair, time_of, insert_snapshot}
use assetlog.Fx.Service.{
  FxStore, Adapter, supported_currencies, quotes_for, store_rates, refresh_bases, refresh_all,
}

-- One row per pair, and one snapshot per pair and time.
abbrev pub UniqueKeys : FxStore → Type 0
UniqueKeys s =
    (b q : String)
    → (length (filter (has_pair b q) s.fx_rates) ≤ 1)
      × DistinctIds time_of (filter (of_pair b q) s.fx_rate_snapshots)

length-upsert :
    (base quote b q : String) (rate : ℤ) (at : ℕ) (rows : List FxRate)
    → length (filter (has_pair b q) (upsert base quote rate at rows)) ≡ (
        if (base ==ₛ b) && (quote ==ₛ q)
        then max 1 (length (filter (has_pair b q) rows))
        else length (filter (has_pair b q) rows))
unfolding upsert filter
length-upsert base quote b q rate at [] = ground arith
length-upsert base quote b q rate at (r ∷ rows) = ground (
  arith,
  eq_iff r.base_currency base,
  eq_iff r.quote_currency quote,
  eq_iff r.base_currency b,
  eq_iff r.quote_currency q,
  eq_iff base b,
  eq_iff quote q,
  length-upsert base quote b q rate at rows,
)

module _ (b q : String) where
  DistinctIds-append :
      (x : FxRateSnapshot) (xs : List FxRateSnapshot)
      → DistinctIds time_of xs
      → All (λ y. y.recorded_at ≢ x.recorded_at) xs
      → DistinctIds time_of (xs ++ x ∷ [])
  DistinctIds-append x [] d h = (tt, tt)
  DistinctIds-append x (y ∷ xs) d h = (
    All-append _ xs (x ∷ []) d.0 ((λ e. h.0 (omega (arith, e))), tt),
    DistinctIds-append x xs d.1 h.1,
  )

  none_at :
      (at : ℕ) (rows : List FxRateSnapshot)
      → any (λ s. of_pair b q s && (s.recorded_at == at)) rows ≡ false
      → All (λ y. y.recorded_at ≢ at) (filter (of_pair b q) rows)
  unfolding filter
  none_at at [] e = tt
  none_at at (s ∷ rows) e = elim (Bool-cases (of_pair b q s)) [
    | inl here ↦ rw here (ground arith, none_at at rows (ground arith))
    | inr there ↦ rw there (none_at at rows (ground arith))
  ]

  appended :
      (base quote : String) (rate : ℤ) (at : ℕ) (rows : List FxRateSnapshot)
      → DistinctIds time_of (filter (of_pair b q) rows)
      → any (λ s. of_pair base quote s && (s.recorded_at == at)) rows ≡ false
      → DistinctIds time_of
          (filter (of_pair b q) rows ++ filter (of_pair b q) (snapshot base quote rate at ∷ []))
  unfolding filter
  appended base quote rate at rows d fresh =
      let new = snapshot base quote rate at in
      elim (Bool-cases (of_pair b q new)) [
        | inl same ↦
            let same_base : base ≡ b = ground (arith, eq_iff base b) in
            let same_quote : quote ≡ q = ground (arith, eq_iff quote q) in
            let fresh' : any (λ s. of_pair b q s && (s.recorded_at == at)) rows ≡ false =
              rw (same_base, same_quote) at fresh in
            rw same (DistinctIds-append new (filter (of_pair b q) rows) d (none_at at rows fresh'))
        | inr other ↦ rw (other, append-nil (filter (of_pair b q) rows)) d
      ]

  insert_snapshot-Distinct :
      (base quote : String) (rate : ℤ) (at : ℕ) (rows : List FxRateSnapshot)
      → DistinctIds time_of (filter (of_pair b q) rows)
      → DistinctIds time_of (filter (of_pair b q) (insert_snapshot base quote rate at rows))
  unfolding insert_snapshot filter
  insert_snapshot-Distinct base quote rate at rows d =
      let new = snapshot base quote rate at in
      elim (Bool-cases (any (λ s. of_pair base quote s && (s.recorded_at == at)) rows)) [
        | inl there ↦ rw there d
        | inr fresh ↦
            rw (fresh, filter-append (of_pair b q) rows (new ∷ []))
              (appended base quote rate at rows d fresh)
      ]

store_rates-UniqueKeys :
    (base : String) (now : ℕ) (rates : Dict ℤ) (s : FxStore)
    → UniqueKeys s
    → UniqueKeys (store_rates base now rates s)
unfolding store_rates
store_rates-UniqueKeys base now [] s h = h
store_rates-UniqueKeys base now ((quote, rate) ∷ rates) s h =
    store_rates-UniqueKeys base now rates (store_rates base now ((quote, rate) ∷ []) s) (λ b q. (
      ground (arith, length-upsert base quote b q rate now s.fx_rates, (h b q).0),
      insert_snapshot-Distinct b q base quote rate now s.fx_rate_snapshots (h b q).1,
    ))

refresh_bases-UniqueKeys :
    (adapter : Adapter) (now : ℕ) (bases : List String) (s : FxStore)
    → UniqueKeys s
    → UniqueKeys (refresh_bases adapter now bases s).1
unfolding refresh_bases
refresh_bases-UniqueKeys adapter now [] s h = h
refresh_bases-UniqueKeys adapter now (base ∷ bases) s h =
    elim (Option-cases (adapter base (quotes_for base))) [
      | inl failed ↦ rw failed (refresh_bases-UniqueKeys adapter now bases s h)
      | inr (rates, given) ↦ rw given (
          refresh_bases-UniqueKeys adapter now bases (store_rates base now rates s)
            (store_rates-UniqueKeys base now rates s h))
    ]

-- A refresh keeps both unique keys, whatever the adapter gives.
pub refresh_all-UniqueKeys :
    (adapter : Adapter) (now : ℕ) (s : FxStore)
    → UniqueKeys s
    → UniqueKeys (refresh_all adapter now s).1
unfolding refresh_all
refresh_all-UniqueKeys adapter now s h =
    refresh_bases-UniqueKeys adapter now supported_currencies s h
