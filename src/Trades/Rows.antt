-- ===== src/Trades/Rows.antt =====
-- Sums over the rows of one asset, under each way in which the table is written.
use assetlog.Prelude.{
  ℕ, ◌≡◌, ◌≢◌, refl, some, List, [], ◌∷◌, ◌++◌, map, filter, find, All, arith, ◌==◌, Bool-cases,
  inl, inr, if◌then◌else◌,
}
use assetlog.Prelude.Int.{ℤ, ◌+ℤ◌, int_laws}
use assetlog.Prelude.Sums.{sum_of}
use assetlog.Db.{Transaction}
use assetlog.Trades.Repo.{TransactionData, is_of, is_row, overwrite, overwrite_row, other_row}

-- The primary key: no two rows have one id.
abbrev pub HasDistinctIds : List Transaction → Type 0
HasDistinctIds [] = Unit
HasDistinctIds (tx ∷ rest) = All (λ (u : Transaction). u.id ≢ tx.id) rest × HasDistinctIds rest

-- The sum of `f` over the rows of one asset.
unfoldable pub sum_for : (Transaction → ℤ) → ℕ → List Transaction → ℤ
unfolding sum_of filter
sum_for f uid rows = sum_of f (filter (is_of uid) rows)

module _ (f : Transaction → ℤ) where
  pub sum_for-cons :
      (uid : ℕ) (tx : Transaction) (rows : List Transaction)
      → sum_for f uid (tx ∷ rows)
        ≡ (if tx.user_asset_id == uid then f tx +ℤ sum_for f uid rows else sum_for f uid rows)
  unfolding sum_for
  sum_for-cons uid tx rows = ground arith

  pub sum_for-append :
      (uid : ℕ) (xs ys : List Transaction)
      → sum_for f uid (xs ++ ys) ≡ sum_for f uid xs +ℤ sum_for f uid ys
  sum_for-append uid [] ys = unfold sum_for in omega int_laws
  sum_for-append uid (tx ∷ xs) ys =
      grind
        (int_laws, sum_for-cons uid tx (xs ++ ys), sum_for-cons uid tx xs, sum_for-append uid xs ys)

-- Rows without the id are as they were.
map-overwrite_absent :
    (k tid uid : ℕ) (d : TransactionData) (rows : List Transaction)
    → k ≡ tid
    → All (λ (u : Transaction). u.id ≢ k) rows
    → map (overwrite_row tid uid d) rows ≡ rows
map-overwrite_absent k tid uid d [] e h = refl
map-overwrite_absent k tid uid d (tx ∷ rows) e h =
    ground (arith, map-overwrite_absent k tid uid d rows e h.1)

filter-other_absent :
    (k tid uid : ℕ) (rows : List Transaction)
    → k ≡ tid
    → All (λ (u : Transaction). u.id ≢ k) rows
    → filter (other_row tid uid) rows ≡ rows
unfolding filter
filter-other_absent k tid uid [] e h = refl
filter-other_absent k tid uid (tx ∷ rows) e h =
    ground (arith, filter-other_absent k tid uid rows e h.1)

-- The row that a lookup finds has the ids that were asked for.
pub find-is_row :
    (tid uid : ℕ) (rows : List Transaction) (tx : Transaction)
    → find (is_row tid uid) rows ≡ some tx
    → (tx.id ≡ tid) × (tx.user_asset_id ≡ uid)
unfolding find
find-is_row tid uid [] tx e = cc
find-is_row tid uid (u ∷ rows) tx e = ground (arith, find-is_row tid uid rows tx)

module _ (f : Transaction → ℤ) where
  -- Overwriting the row that a lookup finds replaces its term of the sum.
  pub sum_for-overwrite :
      (tid uid : ℕ) (d : TransactionData) (rows : List Transaction) (tx : Transaction)
      → HasDistinctIds rows
      → find (is_row tid uid) rows ≡ some tx
      → sum_for f uid (map (overwrite_row tid uid d) rows) +ℤ f tx
        ≡ sum_for f uid rows +ℤ f (overwrite d tx)
  unfolding find
  sum_for-overwrite tid uid d [] tx ids e = cc
  sum_for-overwrite tid uid d (u ∷ rows) tx ids e = elim (Bool-cases (is_row tid uid u)) [
    | inl here ↦ grind (
      int_laws,
      map-overwrite_absent u.id tid uid d rows (ground arith) ids.0,
      sum_for-cons f uid u rows,
      sum_for-cons f uid (overwrite d u) rows,
    )
    | inr there ↦ grind (
      int_laws,
      sum_for-overwrite tid uid d rows tx ids.1,
      sum_for-cons f uid u rows,
      sum_for-cons f uid u (map (overwrite_row tid uid d) rows),
    )
  ]

  -- Dropping that row takes its term out of the sum.
  pub sum_for-other_row :
      (tid uid : ℕ) (rows : List Transaction) (tx : Transaction)
      → HasDistinctIds rows
      → find (is_row tid uid) rows ≡ some tx
      → sum_for f uid (filter (other_row tid uid) rows) +ℤ f tx ≡ sum_for f uid rows
  unfolding find filter
  sum_for-other_row tid uid [] tx ids e = cc
  sum_for-other_row tid uid (u ∷ rows) tx ids e = elim (Bool-cases (is_row tid uid u)) [
    | inl here ↦ grind (
      int_laws,
      filter-other_absent u.id tid uid rows (ground arith) ids.0,
      sum_for-cons f uid u rows,
    )
    | inr there ↦ grind (
      int_laws,
      sum_for-other_row tid uid rows tx ids.1,
      sum_for-cons f uid u rows,
      sum_for-cons f uid u (filter (other_row tid uid) rows),
    )
  ]

  -- The sums of the other assets stay.
  pub sum_for-overwrite_ne :
      (tid uid other : ℕ) (d : TransactionData) (rows : List Transaction)
      → other ≢ uid
      → sum_for f other (map (overwrite_row tid uid d) rows) ≡ sum_for f other rows
  sum_for-overwrite_ne tid uid other d [] ne = refl
  sum_for-overwrite_ne tid uid other d (u ∷ rows) ne = grind (
    int_laws,
    sum_for-overwrite_ne tid uid other d rows ne,
    sum_for-cons f other u rows,
    sum_for-cons f other (overwrite_row tid uid d u) (map (overwrite_row tid uid d) rows),
  )

  pub sum_for-other_row_ne :
      (tid uid other : ℕ) (rows : List Transaction)
      → other ≢ uid
      → sum_for f other (filter (other_row tid uid) rows) ≡ sum_for f other rows
  unfolding filter
  sum_for-other_row_ne tid uid other [] ne = refl
  sum_for-other_row_ne tid uid other (u ∷ rows) ne = grind (
    int_laws,
    sum_for-other_row_ne tid uid other rows ne,
    sum_for-cons f other u rows,
    sum_for-cons f other u (filter (other_row tid uid) rows),
  )
