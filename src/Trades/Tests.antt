-- ===== src/Trades/Tests.antt =====
-- Tests of the transaction service, and each property at an input.
use assetlog.Prelude.{
  ℕ, ◌≡◌, ◌≢◌, ◌⊎◌, ◌↔◌, refl, none, some, List, [], ◌∷◌, ◌++◌, find, filter, ◌==◌, if◌then◌else◌,
  arith, suc,
}
use assetlog.Prelude.Int.{pos, ◌+ℤ◌, ◌-ℤ◌, ◌≤ℤ◌}
use assetlog.Prelude.Sums.{sum_of}
use assetlog.Db.{
  Database, Transaction, buy, sell, Error, ok, err, empty_database, insufficient_holding,
}
use assetlog.Trades.Repo.{
  TransactionData, of_data, overwrite, get_user_asset, get_remaining_quantity,
  get_by_id_for_user_asset, list_all_for_user_asset,
}
use assetlog.Trades.Service.{add, edit, import_rows, timeline, new_rows}
use assetlog.Trades.Holdings.{change, IsCovered}
use assetlog.Trades.Keys.{HasKeys}
use assetlog.Trades.Balance.{balance_after}
use assetlog.Trades.Timeline.{Proxy, of_data_row, first_negative}
use assetlog.Trades.Writes.{add_moves, add-IsCovered, edit_moves, edit-IsCovered}
use assetlog.Trades.Imports.{change_all, import_rows_all_or_nothing, import_rows_accepts}

abbrev bought_3 : TransactionData
bought_3 = record {
  type = buy;
  quantity = pos 3;
  price = pos 100;
  traded_at = 10;
  memo = none;
  tag = none;
}

abbrev sold_2 : TransactionData
sold_2 = record bought_3 { type = sell; quantity = pos 2; traded_at = 20 }

-- One asset with a BUY of 3.
abbrev shelf : Database
shelf = record empty_database {
  user_assets = record { id = 7; asset_symbol_id = 1 } ∷ [];
  transactions = of_data 1 7 bought_3 ∷ [];
  next_transaction = 2;
}

shelf-HasKeys : HasKeys shelf
shelf-HasKeys = record { distinct = (tt, tt); below = (omega arith, tt) }

shelf_known : get_user_asset 7 shelf ≢ none
unfolding get_user_asset find
shelf_known e = absurd (grind arith)

shelf_row : get_by_id_for_user_asset 1 7 shelf ≡ some (of_data 1 7 bought_3)
unfolding get_by_id_for_user_asset find
shelf_row = refl

shelf_holds : (uid : ℕ) → get_remaining_quantity uid shelf ≡ (if 7 == uid then pos 3 else pos 0)
unfolding get_remaining_quantity ◌-ℤ◌ ◌+ℤ◌ sum_of filter
shelf_holds uid = ground arith

shelf-IsCovered : IsCovered shelf
shelf-IsCovered uid = ground (arith, shelf_holds uid)

oversold_refused : (add 7 (record sold_2 { quantity = pos 4 }) shelf).0 ≡ err insufficient_holding
unfolding add sum_of find filter ◌-ℤ◌ ◌+ℤ◌
oversold_refused = refl

add_moves_example :
    let (r, after) = add 7 sold_2 shelf in
    ((e : Error) × (r ≡ err e)
      × (after ≡ shelf)
      × ((get_user_asset 7 shelf ≡ none)
          ⊎ ((sell ≡ sell) × ¬ (pos 0 ≤ℤ get_remaining_quantity 7 shelf +ℤ change sell (pos 2)))))
    ⊎ ((tx : Transaction) × (r ≡ ok tx)
        × (tx ≡ of_data shelf.next_transaction 7 sold_2)
        × (after.transactions ≡ shelf.transactions ++ tx ∷ [])
        × (after.next_transaction ≡ suc shelf.next_transaction)
        × (get_user_asset 7 shelf ≢ none)
        × ((sell ≡ buy) ⊎ (pos 0 ≤ℤ get_remaining_quantity 7 after))
        × ((other : ℕ)
            → get_remaining_quantity other after ≡ (
                if 7 == other
                then get_remaining_quantity other shelf +ℤ change sell (pos 2)
                else get_remaining_quantity other shelf)))
add_moves_example = add_moves 7 sold_2 shelf

add-IsCovered_example : IsCovered (add 7 sold_2 shelf).1
add-IsCovered_example = add-IsCovered 7 sold_2 shelf (omega arith) shelf-IsCovered

edit_accepted :
    (edit 7 1 (record bought_3 { quantity = pos 5 }) shelf).0
    ≡ ok (of_data 1 7 (record bought_3 { quantity = pos 5 }))
unfolding edit sum_of find filter ◌-ℤ◌ ◌+ℤ◌
edit_accepted = refl

abbrev bought_5 : TransactionData
bought_5 = record bought_3 { quantity = pos 5 }

edit_moves_example :
    let after = (edit 7 1 bought_5 shelf).1 in
    (of_data 1 7 bought_5 ≡ overwrite bought_5 (of_data 1 7 bought_3))
    × (get_remaining_quantity 7 after +ℤ pos 3 ≡ get_remaining_quantity 7 shelf +ℤ pos 5)
    × (pos 0 ≤ℤ get_remaining_quantity 7 after)
    × ((other : ℕ)
        → other ≢ 7
        → get_remaining_quantity other after ≡ get_remaining_quantity other shelf)
edit_moves_example =
    edit_moves 7 1 bought_5 shelf (of_data 1 7 bought_3) (of_data 1 7 bought_5)
      shelf-HasKeys.distinct shelf_row edit_accepted

edit-IsCovered_example : IsCovered (edit 7 1 sold_2 shelf).1
edit-IsCovered_example = edit-IsCovered 7 1 sold_2 shelf shelf-HasKeys.distinct shelf-IsCovered

import_rows_all_or_nothing_example :
    ((e : Error) × (import_rows 7 (sold_2 ∷ []) shelf ≡ (err e, shelf)))
    ⊎ (let (r, after) = import_rows 7 (sold_2 ∷ []) shelf in
        (preview : List Transaction) × (r ≡ ok (1, preview))
        × (after.transactions ≡ shelf.transactions ++ new_rows 2 7 (sold_2 ∷ []))
        × HasKeys after
        × ((other : ℕ)
            → get_remaining_quantity other after ≡ (
                if 7 == other
                then get_remaining_quantity other shelf +ℤ change_all (sold_2 ∷ [])
                else get_remaining_quantity other shelf)))
import_rows_all_or_nothing_example = import_rows_all_or_nothing 7 (sold_2 ∷ []) shelf shelf-HasKeys

import_rows_accepts_example :
    ((r : ℕ × List Transaction) × ((import_rows 7 (sold_2 ∷ []) shelf).0 ≡ ok r)) ↔ (
      (n : ℕ)
      → pos 0 ≤ℤ balance_after (pos 0) (timeline (list_all_for_user_asset 7 shelf) (sold_2 ∷ [])) n)
import_rows_accepts_example = import_rows_accepts 7 (sold_2 ∷ []) shelf shelf_known

-- A SELL of 2 before anything was bought.
abbrev short_sale : Proxy
short_sale = of_data_row 1 sold_2

short_sale_found : first_negative (pos 0) (short_sale ∷ []) ≡ some short_sale
unfolding first_negative ◌-ℤ◌ ◌+ℤ◌
short_sale_found = refl
