-- ===== src/Trades/Service.antt =====
-- backend/app/services/transaction.py.
use assetlog.Prelude.{
  ℕ, suc, String, Bool, not, Option, none, some, List, [], ◌∷◌, ◌++◌, map, take, length, leb,
  if◌then◌else◌,
}
use assetlog.Prelude.Int.{ℤ, pos, ◌+ℤ◌, ◌-ℤ◌, ltb_ℤ}
use assetlog.Prelude.Sorting.{sort}
use assetlog.Db.{
  Transaction, is_buy, Action, Violation, pure, raise, gets, modify, ◌>>=◌, ◌>>◌, raise_if,
  or_raise, not_found, insufficient_holding, csv_import_validation,
}
use assetlog.Trades.Repo
use assetlog.Trades.Repo.{
  TransactionData, SummaryAggregates, create, list_for_user_asset, list_all_for_user_asset,
  get_summary, get_remaining_quantity, get_by_id_for_user_asset, update,
  delete_by_id_for_user_asset, get_user_asset,
}
use assetlog.Trades.Timeline.{Proxy, of_existing, of_data_row, by_time, first_negative, add_all}

-- `ua = await self._ua_repo.get_by_id(…)`, and its test.
abbrev require_user_asset : ℕ → Action (Unit {0})
require_user_asset user_asset_id = do
  found ← gets (get_user_asset user_asset_id)
  elim found [ none ↦ raise not_found | some ua ↦ pure tt ]

-- The guard of a SELL.
abbrev require_holding : ℕ → TransactionData → Action (Unit {0})
require_holding user_asset_id d = if is_buy d.type then pure tt else do
  remaining ← gets (get_remaining_quantity user_asset_id)
  raise_if (ltb_ℤ remaining d.quantity) insufficient_holding

unfoldable pub add : ℕ → TransactionData → Action Transaction
unfolding get_user_asset get_remaining_quantity create
add user_asset_id d = do
  require_user_asset user_asset_id
  require_holding user_asset_id d
  create user_asset_id d

-- `TransactionService.list`
unfoldable pub list_page : ℕ → ℕ → ℕ → Option String → Action (List Transaction)
unfolding get_user_asset list_for_user_asset
list_page user_asset_id limit offset tag = do
  require_user_asset user_asset_id
  gets (list_for_user_asset user_asset_id limit offset tag)

-- What the other transactions leave, with the edited one put in place of `tx`.
unfoldable pub hypothetical_remaining : SummaryAggregates → Transaction → TransactionData → ℤ
hypothetical_remaining agg tx d =
    let other_bought =
      if is_buy tx.type then agg.total_bought_qty -ℤ tx.quantity else agg.total_bought_qty in
    let other_sold =
      if is_buy tx.type then agg.total_sold_qty else agg.total_sold_qty -ℤ tx.quantity in
    if is_buy d.type
    then other_bought +ℤ d.quantity -ℤ other_sold
    else other_bought -ℤ other_sold -ℤ d.quantity

unfoldable pub edit : ℕ → ℕ → TransactionData → Action Transaction
unfolding get_user_asset get_by_id_for_user_asset get_summary hypothetical_remaining update
edit user_asset_id transaction_id d = do
  require_user_asset user_asset_id
  found ← gets (get_by_id_for_user_asset transaction_id user_asset_id)
  tx ← or_raise found not_found
  agg ← gets (get_summary user_asset_id)
  raise_if (ltb_ℤ (hypothetical_remaining agg tx d) (pos 0)) insufficient_holding
  or_raise (← update transaction_id user_asset_id d) not_found

unfoldable pub remove : ℕ → ℕ → Action (Unit {0})
unfolding get_user_asset delete_by_id_for_user_asset
remove user_asset_id transaction_id = do
  require_user_asset user_asset_id
  deleted ← delete_by_id_for_user_asset transaction_id user_asset_id
  raise_if (not deleted) not_found

abbrev pub balance_violation : Violation
balance_violation = record { row = 0; field = none; message = "Running balance would go negative" }

abbrev pub oldest_first : Transaction → Transaction → Bool
oldest_first a b = leb a.traded_at b.traded_at

unfoldable pub timeline : List Transaction → List TransactionData → List Proxy
unfolding sort
timeline existing rows = sort by_time (map of_existing existing ++ map (of_data_row 0) rows)

-- The rows that `add_all` makes.
unfoldable pub new_rows : ℕ → ℕ → List TransactionData → List Transaction
new_rows next user_asset_id [] = []
new_rows next user_asset_id (d ∷ rest) =
    Repo.of_data next user_asset_id d ∷ new_rows (suc next) user_asset_id rest

-- `import_csv` from the rows that its parser has validated: the balance check, the bulk insert, and
-- the count with the ten earliest of the new rows.
unfoldable pub import_rows : ℕ → List TransactionData → Action (ℕ × List Transaction)
unfolding get_user_asset list_all_for_user_asset timeline first_negative add_all new_rows
import_rows user_asset_id rows = do
  require_user_asset user_asset_id
  existing ← gets (list_all_for_user_asset user_asset_id)
  elim (first_negative (pos 0) (timeline existing rows)) [
    | some p ↦ raise (csv_import_validation (balance_violation ∷ []))
    | none ↦ do
      new_txs ← gets (λ db. new_rows db.next_transaction user_asset_id rows)
      modify (add_all user_asset_id rows)
      pure (length new_txs, take 10 (sort oldest_first new_txs))
  ]
