-- ===== src/Trades/Removal.antt =====
-- What `TransactionService.remove` does to the holdings.
use assetlog.Prelude.{
  ℕ, ◌≡◌, ◌≢◌, ◌⊎◌, refl, find, [], ◌∷◌, none, some, List, filter, arith, Option-cases, inl, inr,
}
use assetlog.Prelude.Int.{◌+ℤ◌}
use assetlog.Db.{Database, Transaction, ok, err, not_found}
use assetlog.Trades.Repo.{
  is_row, other_row, get_remaining_quantity, get_by_id_for_user_asset, delete_by_id_for_user_asset,
  get_user_asset,
}
use assetlog.Trades.Service.{remove}
use assetlog.Trades.Rows.{HasDistinctIds, sum_for-other_row, sum_for-other_row_ne}
use assetlog.Trades.Holdings.{change_of, remaining-eq-sum_for}

transactions-delete :
    (tid uid : ℕ) (db : Database) (tx : Transaction)
    → get_by_id_for_user_asset tid uid db ≡ some tx
    → (delete_by_id_for_user_asset tid uid db).1.transactions
      ≡ filter (other_row tid uid) db.transactions
unfolding delete_by_id_for_user_asset
transactions-delete tid uid db tx found = ground arith

-- `remove` refuses an unknown asset or row and changes nothing; else it drops the row.
remove_outcome :
    (uid tid : ℕ) (db : Database)
    → ((((get_user_asset uid db ≡ none) ⊎ (get_by_id_for_user_asset tid uid db ≡ none))
          × (remove uid tid db ≡ (err not_found, db)))
        ⊎ ((tx : Transaction) × (get_by_id_for_user_asset tid uid db ≡ some tx)
            × (remove uid tid db ≡ (ok tt, (delete_by_id_for_user_asset tid uid db).1))))
unfolding remove
remove_outcome uid tid db = elim (Option-cases (get_user_asset uid db)) [
  | inl missing ↦ inl (inl missing, ground arith)
  | inr (ua, known) ↦ elim (Option-cases (get_by_id_for_user_asset tid uid db)) [
    | inl missing ↦ inl (inr missing, ground arith)
    | inr (tx, found) ↦ inr (tx, found, ground arith)
  ]
]

remaining-delete :
    (uid tid : ℕ) (db : Database) (tx : Transaction)
    → HasDistinctIds db.transactions
    → get_by_id_for_user_asset tid uid db ≡ some tx
    → get_remaining_quantity uid (delete_by_id_for_user_asset tid uid db).1 +ℤ change_of tx
      ≡ get_remaining_quantity uid db
remaining-delete uid tid db tx ids found =
    rw
      (
        remaining-eq-sum_for uid (delete_by_id_for_user_asset tid uid db).1,
        remaining-eq-sum_for uid db,
        transactions-delete tid uid db tx found,
      )
      (unfold get_by_id_for_user_asset in
        sum_for-other_row change_of tid uid db.transactions tx ids found)

remaining-delete_ne :
    (uid tid other : ℕ) (db : Database) (tx : Transaction)
    → get_by_id_for_user_asset tid uid db ≡ some tx
    → other ≢ uid
    → get_remaining_quantity other (delete_by_id_for_user_asset tid uid db).1
      ≡ get_remaining_quantity other db
remaining-delete_ne uid tid other db tx found ne =
    rw
      (
        remaining-eq-sum_for other (delete_by_id_for_user_asset tid uid db).1,
        remaining-eq-sum_for other db,
        transactions-delete tid uid db tx found,
      )
      (sum_for-other_row_ne change_of tid uid other db.transactions ne)

find-filter_other :
    (tid uid : ℕ) (rows : List Transaction)
    → find (is_row tid uid) (filter (other_row tid uid) rows) ≡ none
unfolding find filter
find-filter_other tid uid [] = refl
find-filter_other tid uid (u ∷ rows) = ground (arith, find-filter_other tid uid rows)

deleted_row_gone :
    (uid tid : ℕ) (db : Database) (tx : Transaction)
    → get_by_id_for_user_asset tid uid db ≡ some tx
    → get_by_id_for_user_asset tid uid (delete_by_id_for_user_asset tid uid db).1 ≡ none
unfolding get_by_id_for_user_asset
deleted_row_gone uid tid db tx found =
    rw (transactions-delete tid uid db tx found) (find-filter_other tid uid db.transactions)

-- A removal takes back the change that the row had made, moves no other asset, and is not checked
-- against the holding.
pub remove_moves :
    (uid tid : ℕ) (db : Database) (tx : Transaction)
    → HasDistinctIds db.transactions
    → get_by_id_for_user_asset tid uid db ≡ some tx
    → get_user_asset uid db ≢ none
    → let (r, after) = remove uid tid db in
      (r ≡ ok tt)
      × (get_remaining_quantity uid after +ℤ change_of tx ≡ get_remaining_quantity uid db)
      × ((other : ℕ)
          → other ≢ uid
          → get_remaining_quantity other after ≡ get_remaining_quantity other db)
      × (get_by_id_for_user_asset tid uid after ≡ none)
remove_moves uid tid db tx ids found known = elim (remove_outcome uid tid db) [
  | inl (inl missing, e) ↦ absurd (known missing)
  | inl (inr missing, e) ↦ cc
  | inr (u, f, e) ↦ rw e (
    refl,
    remaining-delete uid tid db tx ids found,
    λ other. remaining-delete_ne uid tid other db tx found,
    deleted_row_gone uid tid db tx found,
  )
]
