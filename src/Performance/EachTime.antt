-- ===== src/Performance/EachTime.antt =====
-- The single pass of `build_value_series` against a computation of each timestamp by itself.
use assetlog.Prelude.{
  ℕ, ◌≤◌, ◌≡◌, refl, ap, ◌∙◌, String, List, [], ◌∷◌, All, All-mono, map, leb, inl, inr, Bool-cases,
  if◌then◌else◌,
}
use assetlog.Prelude.Int.{ℤ, pos, ◌+ℤ◌}
use assetlog.Prelude.Sorting.{Ascending, sort, by_key, sort_by-Ascending}
use assetlog.Prelude.Keyed.{Keyed}
use assetlog.History.Rows.{AllTxRow, Price}
use assetlog.History.Pointer.{prices, Fits, Fits-later, Fits-start, price_at_lem, last_until, when}
use assetlog.History.Quantities.{traded, until, after}
use assetlog.Performance.Flows.{FxAt}
use assetlog.Performance.Until.{step_all, step_until_lem, step_all-after, after-Ascending}
use assetlog.Performance.Series.{
  ValuePoint, trade, at_price, worth_of, worth_then, value_points, build_value_series,
}

module _ (price_index : Keyed (List Price)) (symbol_currency : Keyed String) (fx_at : FxAt)
    (report_currency : String) where
  abbrev priced : ℕ → ℕ → ℕ → ℤ
  priced ts sym_id qty =
      at_price price_index symbol_currency fx_at report_currency ts sym_id qty
        (last_until ts (prices price_index sym_id))

  -- What shares are worth at a time, each at its symbol's last price up to then.
  unfoldable pub worth_at : ℕ → Keyed ℕ → ℤ
  unfolding ◌+ℤ◌ last_until
  worth_at ts [] = pos 0
  worth_at ts ((sym_id, qty) ∷ shares) =
      let rest = worth_at ts shares in (if leb qty 0 then pos 0 else priced ts sym_id qty) +ℤ rest

  -- One point, from the shares at the start and all the transactions up to its time.
  abbrev pub point_at : List AllTxRow → Keyed ℕ → ℕ → ValuePoint
  point_at txs shares ts = record {
    timestamp = ts;
    value = worth_at ts (step_all trade (until ts txs) shares);
  }

  abbrev pub SortedPrices : Type 0
  SortedPrices = (sym_id : ℕ) → Ascending when (prices price_index sym_id)

  value_of_lem :
      (ts sym_id qty : ℕ) (pointer : Keyed ℕ)
      → SortedPrices
      → Fits price_index ts pointer
      → let out =
          worth_of price_index symbol_currency fx_at report_currency ts sym_id qty pointer in
        (out.0 ≡ (if leb qty 0 then pos 0 else priced ts sym_id qty)) × Fits price_index ts out.1
  unfolding worth_of
  value_of_lem ts sym_id qty pointer up fits =
      let (same, fits') = price_at_lem price_index sym_id ts pointer (up sym_id) fits in
      elim (Bool-cases (leb qty 0)) [
        | inl nothing ↦ rw nothing (refl, fits)
        | inr held ↦ rw held (
          ap (at_price price_index symbol_currency fx_at report_currency ts sym_id qty) same,
          fits',
        )
      ]

  value_at_lem :
      (ts : ℕ) (shares pointer : Keyed ℕ)
      → SortedPrices
      → Fits price_index ts pointer
      → let out = worth_then price_index symbol_currency fx_at report_currency ts shares pointer in
        (out.0 ≡ worth_at ts shares) × Fits price_index ts out.1
  unfolding worth_then worth_at
  value_at_lem ts [] pointer up fits = (refl, fits)
  value_at_lem ts ((sym_id, qty) ∷ shares) pointer up fits =
      let (first, fits') = value_of_lem ts sym_id qty pointer up fits in
      let pointer' =
        (worth_of price_index symbol_currency fx_at report_currency ts sym_id qty pointer).1 in
      let (rest, last) = value_at_lem ts shares pointer' up fits' in (rw (first, rest) refl, last)

  later_points :
      (ts : ℕ) (timestamps : List ℕ) (txs : List AllTxRow) (shares : Keyed ℕ)
      → All (λ t. ts ≤ t) timestamps
      → Ascending traded txs
      → map (point_at (after ts txs) (step_all trade (until ts txs) shares)) timestamps
        ≡ map (point_at txs shares) timestamps
  later_points ts [] txs shares le up = refl
  later_points ts (t ∷ timestamps) txs shares le up =
      rw (step_all-after trade ts t txs shares le.0 up)
        (ap (λ rest. point_at txs shares t ∷ rest) (later_points ts timestamps txs shares le.1 up))

  value_points_lem :
      (timestamps : List ℕ) (txs : List AllTxRow) (shares pointer : Keyed ℕ)
      → SortedPrices
      → Ascending (λ t. t) timestamps
      → Ascending traded txs
      → All (λ t. Fits price_index t pointer) timestamps
      → value_points price_index symbol_currency fx_at report_currency timestamps txs shares pointer
        ≡ map (point_at txs shares) timestamps
  unfolding value_points
  value_points_lem [] txs shares pointer sorted times up fits = refl
  value_points_lem (ts ∷ timestamps) txs shares pointer sorted times up fits =
      let held = step_all trade (until ts txs) shares in
      let (value, fits') = value_at_lem ts held pointer sorted fits.0 in
      let pointer' =
        (worth_then price_index symbol_currency fx_at report_currency ts held pointer).1 in
      let on =
        value_points_lem timestamps (after ts txs) held pointer' sorted times.1
          (after-Ascending ts txs up)
          (All-mono _ _ timestamps (λ t le. Fits-later price_index ts t pointer' le fits')
            times.0) in
      rw (step_until_lem trade ts txs shares up, value)
        (ap (λ rest. point_at txs shares ts ∷ rest)
          (on ∙ later_points ts timestamps txs shares times.0 up))

  start-Fits : (timestamps : List ℕ) → All (λ t. Fits price_index t []) timestamps
  start-Fits [] = tt
  start-Fits (t ∷ timestamps) = (Fits-start price_index t, start-Fits timestamps)

  -- For prices of each symbol in the order of time and timestamps in that order, the series of
  -- values, which one pass over the transactions and the prices makes, has at each timestamp the
  -- value of a computation by itself: what all transactions up to then leave, each symbol at its
  -- last price up to then, converted then.
  pub build_value_series-each_time :
      (txs : List AllTxRow) (timestamps : List ℕ)
      → SortedPrices
      → Ascending (λ t. t) timestamps
      → build_value_series txs price_index symbol_currency fx_at report_currency timestamps
        ≡ map (point_at (sort (by_key traded) txs) []) timestamps
  unfolding build_value_series
  build_value_series-each_time txs timestamps sorted times =
      value_points_lem timestamps (sort (by_key traded) txs) [] [] sorted times
        (sort_by-Ascending traded txs) (start-Fits timestamps)
