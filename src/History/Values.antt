-- ===== src/History/Values.antt =====
-- The single pass over the buckets against a computation of each bucket by itself.
use assetlog.Prelude.{
  ℕ, ◌≤◌, ◌≡◌, refl, ap, ◌∙◌, String, Option, List, [], ◌∷◌, All, All-mono, map, leb, inl, inr,
  Bool-cases, if◌then◌else◌,
}
use assetlog.Prelude.Int.{ℤ, pos, ◌+ℤ◌}
use assetlog.Prelude.Dict.{Dict}
use assetlog.Prelude.Sorting.{Ascending}
use assetlog.Prelude.Keyed.{Keyed, at_key_or}
use assetlog.History.Rows.{AllTxRow, Price}
use assetlog.History.Points.{
  Holding, HistoryPoint, worth, value_of, value_at, apply_until, guard_residuals,
  compute_history_points,
}
use assetlog.History.Pointer.{prices, Fits, Fits-later, price_at_lem, last_until, when}
use assetlog.History.Quantities.{
  traded, quantities, trade_all, until, after, quantities-guard_residuals, apply_until_lem,
  after-Ascending, trade_all-after,
}

abbrev pub stamped : HistoryPoint → ℕ × ℤ
stamped p = (p.timestamp, p.value)

module _ (price_index : Keyed (List Price)) (target : String) (symbol_currency : Keyed String)
    (fx_index : Dict (Keyed (Option ℤ))) where
  abbrev priced : ℕ → ℕ → ℕ → ℤ
  priced ts sym_id qty =
      worth price_index target symbol_currency fx_index ts sym_id qty
        (last_until ts (prices price_index sym_id))

  -- What the shares are worth at a time, each at its symbol's last price up to then.
  unfoldable pub worth_at : ℕ → Keyed ℕ → ℤ
  unfolding ◌+ℤ◌ last_until at_key_or
  worth_at ts [] = pos 0
  worth_at ts ((sym_id, qty) ∷ shares) =
      let rest = worth_at ts shares in (if leb qty 0 then pos 0 else priced ts sym_id qty) +ℤ rest

  -- The value of one bucket, from the shares at the start and all the transactions up to it.
  abbrev pub bucket_value : List AllTxRow → Keyed ℕ → ℕ → ℕ × ℤ
  bucket_value txs shares ts = (ts, worth_at ts (trade_all (until ts txs) shares))

  abbrev SortedPrices : Type 0
  SortedPrices = (sym_id : ℕ) → Ascending when (prices price_index sym_id)

  value_of_lem :
      (ts sym_id qty : ℕ) (pointer : Keyed ℕ)
      → SortedPrices
      → Fits price_index ts pointer
      → let out = value_of price_index target symbol_currency fx_index ts sym_id qty pointer in
        (out.0 ≡ (if leb qty 0 then pos 0 else priced ts sym_id qty)) × Fits price_index ts out.1
  unfolding value_of
  value_of_lem ts sym_id qty pointer up fits =
      let (same, fits') = price_at_lem price_index sym_id ts pointer (up sym_id) fits in
      elim (Bool-cases (leb qty 0)) [
        | inl nothing ↦ rw nothing (refl, fits)
        | inr held ↦
            rw held
              (ap (worth price_index target symbol_currency fx_index ts sym_id qty) same, fits')
      ]

  value_at_lem :
      (ts : ℕ) (held : Keyed Holding) (pointer : Keyed ℕ)
      → SortedPrices
      → Fits price_index ts pointer
      → let out = value_at price_index target symbol_currency fx_index ts held pointer in
        (out.0 ≡ worth_at ts (quantities held)) × Fits price_index ts out.1
  unfolding value_at worth_at
  value_at_lem ts [] pointer up fits = (refl, fits)
  value_at_lem ts ((sym_id, h) ∷ held) pointer up fits =
      let (first, fits') = value_of_lem ts sym_id h.qty pointer up fits in
      let pointer' =
        (value_of price_index target symbol_currency fx_index ts sym_id h.qty pointer).1 in
      let (rest, last) = value_at_lem ts held pointer' up fits' in (rw (first, rest) refl, last)

  module _ (flushed : ℤ → ℕ → ℕ → ℤ) where
    -- What one bucket leaves gives the later buckets the same values.
    later_buckets :
        (ts : ℕ) (timestamps : List ℕ) (txs : List AllTxRow) (shares : Keyed ℕ)
        → All (λ t. ts ≤ t) timestamps
        → Ascending traded txs
        → map (bucket_value (after ts txs) (trade_all (until ts txs) shares)) timestamps
          ≡ map (bucket_value txs shares) timestamps
    later_buckets ts [] txs shares le up = refl
    later_buckets ts (t ∷ timestamps) txs shares le up =
        rw (trade_all-after flushed ts t txs shares le.0 up) (
          ap (λ rest. (t, worth_at t (trade_all (until t txs) shares)) ∷ rest)
            (later_buckets ts timestamps txs shares le.1 up))

    pub single_pass :
        (timestamps : List ℕ) (txs : List AllTxRow) (held : Keyed Holding) (pointer : Keyed ℕ)
        → SortedPrices
        → Ascending (λ t. t) timestamps
        → Ascending traded txs
        → All (λ t. Fits price_index t pointer) timestamps
        → map stamped (
            compute_history_points price_index target symbol_currency fx_index flushed timestamps
              txs held pointer)
          ≡ map (bucket_value txs (quantities held)) timestamps
    unfolding compute_history_points
    single_pass [] txs held pointer sorted times up fits = refl
    single_pass (ts ∷ timestamps) txs held pointer sorted times up fits =
        let step = apply_until flushed ts txs held in
        let kept = guard_residuals step.0 in
        let (shares, left) = apply_until_lem flushed ts txs held up in
        let same = quantities-guard_residuals step.0 ∙ shares in
        let (value, fits') = value_at_lem ts kept pointer sorted fits.0 in
        let pointer' = (value_at price_index target symbol_currency fx_index ts kept pointer).1 in
        let on =
          single_pass timestamps (after ts txs) kept pointer' sorted times.1
            (after-Ascending flushed ts txs up)
            (All-mono _ _ timestamps (λ t le. Fits-later price_index ts t pointer' le fits')
              times.0) in
        let head = value ∙ ap (worth_at ts) same in
        rw (head, left)
          (ap (λ rest. (ts, worth_at ts (trade_all (until ts txs) (quantities held))) ∷ rest)
            (on
              ∙ ap (λ q. map (bucket_value (after ts txs) q) timestamps) same
              ∙ later_buckets ts timestamps txs (quantities held) times.0 up))
