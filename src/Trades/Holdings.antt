-- ===== src/Trades/Holdings.antt =====
-- The quantity of an asset that its transactions leave.
use assetlog.Prelude.{ℕ, ◌≡◌, refl, List, [], ◌∷◌, ◌++◌, filter, ◌==◌, if◌then◌else◌}
use assetlog.Prelude.Int.{ℤ, pos, ◌+ℤ◌, ◌-ℤ◌, ◌≤ℤ◌, int_laws}
use assetlog.Prelude.Sums.{sum_of}
use assetlog.Db.{Database, Transaction, TransactionType, is_buy}
use assetlog.Trades.Repo.{is_of, bought, sold, get_remaining_quantity}
use assetlog.Trades.Rows.{sum_for, sum_for-append, sum_for-cons}

-- A BUY adds its quantity and a SELL takes it away.
abbrev pub change : TransactionType → ℤ → ℤ
change type q = if is_buy type then q else pos 0 -ℤ q

abbrev pub change_of : Transaction → ℤ
change_of tx = change tx.type tx.quantity

sum-bought-sold :
    (rows : List Transaction)
    → sum_of (λ tx. bought tx.quantity tx) rows -ℤ sum_of (λ tx. sold tx.quantity tx) rows
      ≡ sum_of change_of rows
unfolding sum_of
sum-bought-sold [] = omega int_laws
sum-bought-sold (tx ∷ rows) = grind (int_laws, sum-bought-sold rows)

-- The two conditional sums of the query are one sum of signed quantities.
pub remaining-eq-sum_for :
    (uid : ℕ) (db : Database)
    → get_remaining_quantity uid db ≡ sum_for change_of uid db.transactions
unfolding get_remaining_quantity sum_for
remaining-eq-sum_for uid db = sum-bought-sold (filter (is_of uid) db.transactions)

-- No asset is sold short.
abbrev pub IsCovered : Database → Type 0
IsCovered db = (uid : ℕ) → pos 0 ≤ℤ get_remaining_quantity uid db

-- One more row at the end of the table.
pub remaining-append :
    (uid : ℕ) (tx : Transaction) (db after : Database)
    → after.transactions ≡ db.transactions ++ tx ∷ []
    → get_remaining_quantity uid after ≡ (
        if tx.user_asset_id == uid
        then get_remaining_quantity uid db +ℤ change_of tx
        else get_remaining_quantity uid db)
remaining-append uid tx db after e =
    rw
      (
        remaining-eq-sum_for uid after,
        e,
        remaining-eq-sum_for uid db,
        sum_for-append change_of uid db.transactions (tx ∷ []),
      )
      (grind (int_laws, sum_for-cons change_of uid tx [], nothing))
  where
    nothing : sum_for change_of uid [] ≡ pos 0
    nothing = unfold sum_for in refl
