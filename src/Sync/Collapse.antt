-- ===== src/Sync/Collapse.antt =====
-- What `_collapse_opening_balances` leaves.
use assetlog.Prelude.{
  ℕ, ◌≤◌, String, not, ◌≡◌, refl, sym, ap, ◌∙◌, List, [], ◌∷◌, All, filter, length, take, arith,
  ◌==◌,
}
use assetlog.Prelude.Sorting.{All-sort, length-sort, sort_short, Least, sort-Least}
use assetlog.Prelude.Table.{DistinctIds, DistinctIds-filter, filter-own_id}
use assetlog.Db.{CashTx}
use assetlog.Sync.CashTxs.{is_opening, is_superfluous, earlier, openings, keep_first, collapsed}

abbrev id_of : CashTx → ℕ
id_of r = r.id

abbrev time_of : CashTx → ℕ
time_of r = r.traded_at

module _ (source : String) where
  -- The openings among the rows that are kept are the openings with the kept id.
  openings-kept :
      (k : ℕ) (rows : List CashTx)
      → filter (is_opening source) (filter (λ r. not (is_superfluous source k r)) rows)
        ≡ filter (λ r. r.id == k) (filter (is_opening source) rows)
  unfolding filter
  openings-kept k [] = refl
  openings-kept k (x ∷ rows) = ground (arith, openings-kept k rows)

  others-kept :
      (k : ℕ) (rows : List CashTx)
      → filter (λ r. not (is_opening source r)) (filter (λ r. not (is_superfluous source k r)) rows)
        ≡ filter (λ r. not (is_opening source r)) rows
  unfolding filter
  others-kept k [] = refl
  others-kept k (x ∷ rows) = ground (arith, others-kept k rows)

  short_openings :
      (ops rows : List CashTx)
      → openings source rows ≡ ops
      → length ops ≤ 1
      → filter (is_opening source) rows ≡ ops
  short_openings ops rows e short =
      let sorted = length-sort earlier (filter (is_opening source) rows) in
      let few : length (filter (is_opening source) rows) ≤ 1 = omega (arith, sorted, ap length e) in
      sym (sort_short earlier (filter (is_opening source) rows) few) ∙ e

  kept_openings :
      (ops rows : List CashTx)
      → DistinctIds id_of rows
      → openings source rows ≡ ops
      → filter (is_opening source) (keep_first source ops rows) ≡ take 1 ops
  kept_openings [] rows d e = short_openings [] rows e (omega arith)
  kept_openings (x ∷ []) rows d e = short_openings (x ∷ []) rows e (omega arith)
  kept_openings (x ∷ y ∷ ops) rows d e =
      let found = filter (is_opening source) rows in
      let alone = filter-own_id id_of found (DistinctIds-filter id_of (is_opening source) rows d) in
      let sorted : All (λ z. filter (λ r. r.id == z.id) found ≡ z ∷ []) (x ∷ y ∷ ops) =
        rw e at (All-sort _ earlier found alone) in
      openings-kept x.id rows ∙ sorted.0

  kept_others :
      (ops rows : List CashTx)
      → filter (λ r. not (is_opening source r)) (keep_first source ops rows)
        ≡ filter (λ r. not (is_opening source r)) rows
  kept_others [] rows = refl
  kept_others (x ∷ []) rows = refl
  kept_others (x ∷ y ∷ ops) rows = others-kept x.id rows

  take_once : (xs : List CashTx) → take 1 (take 1 xs) ≡ take 1 xs
  take_once [] = refl
  take_once (x ∷ xs) = refl

  -- With distinct ids, a collapse leaves of the openings the first by time alone, if there is one; it
  -- leaves every other row; and no opening was earlier than the one that it leaves.
  pub collapsed_lem :
      (rows : List CashTx)
      → DistinctIds id_of rows
      → let after = collapsed source rows in
        (filter (is_opening source) after ≡ take 1 (openings source rows))
        × (filter (λ r. not (is_opening source r)) after
            ≡ filter (λ r. not (is_opening source r)) rows)
        × All
            (λ r. Least time_of r.traded_at (filter (is_opening source) after))
            (filter (is_opening source) rows)
  unfolding collapsed
  collapsed_lem rows d =
      let one = kept_openings (openings source rows) rows d refl in
      (
        one,
        kept_others (openings source rows) rows,
        rw (one, take_once (openings source rows))
            (sort-Least time_of (filter (is_opening source) rows)),
      )
