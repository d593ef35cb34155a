-- ===== src/Performance/Until.antt =====
-- A loop over transactions that are sorted by time, up to a time: what it makes of a state, and the
-- transactions that it leaves for the next round.
use assetlog.Prelude.{
  ℕ, ◌≤◌, ◌<◌, ◌≡◌, refl, List, [], ◌∷◌, All, All-filter, filter, ltb, leb, arith, inl, inr,
  Bool-cases, if◌then◌else◌, true, false,
}
use assetlog.Prelude.Sorting.{Ascending}
use assetlog.History.Rows.{AllTxRow}
use assetlog.History.Quantities.{traded, until, after}

none_until :
    (ts : ℕ) (n : ℕ) (txs : List AllTxRow)
    → ts < n
    → All (λ (tx : AllTxRow). n ≤ tx.traded_at) txs
    → (until ts txs ≡ []) × (after ts txs ≡ txs)
unfolding filter
none_until ts n [] lt h = (refl, refl)
none_until ts n (tx ∷ txs) lt h = ground (arith, lt, h.0, none_until ts n txs lt h.1)

module _ {S : Type 0} (step : AllTxRow → S → S) where
  -- `while tx_ptr < n_txs`, with the `break` at the first later transaction.
  unfoldable pub step_until : ℕ → List AllTxRow → S → S × List AllTxRow
  step_until ts [] s = (s, [])
  step_until ts (tx ∷ txs) s =
      let on = step_until ts txs (step tx s) in if ltb ts tx.traded_at then (s, tx ∷ txs) else on

  unfoldable pub step_all : List AllTxRow → S → S
  step_all [] s = s
  step_all (tx ∷ txs) s = step_all txs (step tx s)

  pub step_until_lem :
      (ts : ℕ) (txs : List AllTxRow) (s : S)
      → Ascending traded txs
      → step_until ts txs s ≡ (step_all (until ts txs) s, after ts txs)
  unfolding step_until step_all filter
  step_until_lem ts [] s up = refl
  step_until_lem ts (tx ∷ txs) s up = elim (Bool-cases (ltb ts tx.traded_at)) [
    | inl late ↦
        let (none_before, all_after) = none_until ts tx.traded_at txs (ground arith) up.0 in
        let not_yet : leb tx.traded_at ts ≡ false = ground arith in
        rw (late, not_yet, none_before, all_after) refl
    | inr in_time ↦
        let now : leb tx.traded_at ts ≡ true = ground arith in
        rw (in_time, now) (step_until_lem ts txs (step tx s) up.1)
  ]

  -- The transactions up to a later time, in two goes.
  pub step_all-after :
      (ts later : ℕ) (txs : List AllTxRow) (s : S)
      → ts ≤ later
      → Ascending traded txs
      → step_all (until later (after ts txs)) (step_all (until ts txs) s)
        ≡ step_all (until later txs) s
  unfolding step_all filter
  step_all-after ts later [] s le up = refl
  step_all-after ts later (tx ∷ txs) s le up = elim (Bool-cases (ltb ts tx.traded_at)) [
    | inl late ↦
        let (none_before, all_after) = none_until ts tx.traded_at txs (ground arith) up.0 in
        let not_yet : leb tx.traded_at ts ≡ false = ground arith in
        rw (late, not_yet, none_before, all_after) refl
    | inr in_time ↦
        let now : leb tx.traded_at ts ≡ true = ground arith in
        let still : leb tx.traded_at later ≡ true = ground (arith, le) in
        rw (in_time, now, still) (step_all-after ts later txs (step tx s) le up.1)
  ]

pub after-Ascending :
    (ts : ℕ) (txs : List AllTxRow) → Ascending traded txs → Ascending traded (after ts txs)
unfolding filter
after-Ascending ts [] up = tt
after-Ascending ts (tx ∷ txs) up = elim (Bool-cases (ltb ts tx.traded_at)) [
  | inl late ↦ rw late (All-filter _ _ txs up.0, after-Ascending ts txs up.1)
  | inr in_time ↦ rw in_time (after-Ascending ts txs up.1)
]
