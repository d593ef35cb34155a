-- ===== src/Trades/Repo.antt =====
-- backend/app/repositories/transaction.py, and `UserAssetRepository.get_by_id`.
use assetlog.Prelude.{
  ℕ, suc, String, Bool, true, false, ◌&&◌, Option, none, some, List, [], ◌∷◌, ◌++◌, map, length,
  take, drop, filter, find, leb, ltb, ◌==◌, ◌==ₛ◌, if◌then◌else◌,
}
use assetlog.Prelude.Int.{ℤ, pos, ◌-ℤ◌, ◌*ℤ◌}
use assetlog.Prelude.Sums.{sum_of}
use assetlog.Prelude.Sorting.{sort}
use assetlog.Db.{Database, Transaction, TransactionType, buy, sell, is_buy, UserAsset, Action, ok}

-- `TransactionCreate` and `TransactionUpdate` of backend/app/schemas/transaction.py.
pub record TransactionData : Type 0 where
  pub type : TransactionType
  pub quantity : ℤ
  pub price : ℤ
  pub traded_at : ℕ
  pub memo : Option String
  pub tag : Option String

abbrev pub is_of : ℕ → Transaction → Bool
is_of user_asset_id tx = tx.user_asset_id == user_asset_id

abbrev pub is_row : ℕ → ℕ → Transaction → Bool
is_row transaction_id user_asset_id tx = tx.id == transaction_id && is_of user_asset_id tx

-- `Transaction(...)` as both services build it: no fee and no external id.
abbrev pub of_data : ℕ → ℕ → TransactionData → Transaction
of_data id user_asset_id d = record {
  id = id;
  user_asset_id = user_asset_id;
  type = d.type;
  quantity = d.quantity;
  price = d.price;
  fee = pos 0;
  traded_at = d.traded_at;
  memo = d.memo;
  tag = d.tag;
  external_source = none;
  external_id = none;
}

unfoldable pub create : ℕ → TransactionData → Action Transaction
create user_asset_id d db =
    let tx = of_data db.next_transaction user_asset_id d in
    (
      ok tx,
      record db {
        transactions = db.transactions ++ tx ∷ [];
        next_transaction = suc db.next_transaction;
      },
    )

-- An empty tag filters nothing, as no tag does.
abbrev has_tag : Option String → Transaction → Bool
has_tag none tx = true
has_tag (some t) tx = if t ==ₛ "" then true else elim tx.tag [ none ↦ false | some own ↦ own ==ₛ t ]

abbrev newest_first : Transaction → Transaction → Bool
newest_first a b = leb b.traded_at a.traded_at

unfoldable pub list_for_user_asset : ℕ → ℕ → ℕ → Option String → Database → List Transaction
unfolding sort filter
list_for_user_asset user_asset_id limit offset tag db = take limit (
    drop offset
      (sort newest_first (filter (has_tag tag) (filter (is_of user_asset_id) db.transactions))))

-- ORDER BY traded_at, BUY before SELL, id.
abbrev pub chronological : Transaction → Transaction → Bool
chronological a b =
    if ltb a.traded_at b.traded_at
    then true
    else if ltb b.traded_at a.traded_at
    then false
    else elim a.type [
      | buy ↦ elim b.type [ buy ↦ leb a.id b.id | sell ↦ true ]
      | sell ↦ elim b.type [ buy ↦ false | sell ↦ leb a.id b.id ]
    ]

unfoldable pub list_all_for_user_asset : ℕ → Database → List Transaction
unfolding sort filter
list_all_for_user_asset user_asset_id db =
    sort chronological (filter (is_of user_asset_id) db.transactions)

-- `SummaryAggregates`; the costs and values are in units of 10^-16.
pub record SummaryAggregates : Type 0 where
  pub total_bought_qty : ℤ
  pub total_bought_cost : ℤ
  pub total_sold_qty : ℤ
  pub total_sold_value : ℤ
  pub tx_count : ℕ

-- CASE WHEN type = BUY THEN x ELSE 0
abbrev pub bought : ℤ → Transaction → ℤ
bought x tx = if is_buy tx.type then x else pos 0

abbrev pub sold : ℤ → Transaction → ℤ
sold x tx = if is_buy tx.type then pos 0 else x

unfoldable pub get_summary : ℕ → Database → SummaryAggregates
get_summary user_asset_id db =
    let rows = filter (is_of user_asset_id) db.transactions in
    record {
      total_bought_qty = sum_of (λ tx. bought tx.quantity tx) rows;
      total_bought_cost = sum_of (λ tx. bought (tx.quantity *ℤ tx.price) tx) rows;
      total_sold_qty = sum_of (λ tx. sold tx.quantity tx) rows;
      total_sold_value = sum_of (λ tx. sold (tx.quantity *ℤ tx.price) tx) rows;
      tx_count = length rows;
    }

unfoldable pub get_remaining_quantity : ℕ → Database → ℤ
unfolding get_summary
get_remaining_quantity user_asset_id db =
    let agg = get_summary user_asset_id db in agg.total_bought_qty -ℤ agg.total_sold_qty

unfoldable pub get_by_id_for_user_asset : ℕ → ℕ → Database → Option Transaction
get_by_id_for_user_asset transaction_id user_asset_id db =
    find (is_row transaction_id user_asset_id) db.transactions

-- The assignments of `update`.
abbrev pub overwrite : TransactionData → Transaction → Transaction
overwrite d tx = record tx {
  type = d.type;
  quantity = d.quantity;
  price = d.price;
  traded_at = d.traded_at;
  memo = d.memo;
  tag = d.tag;
}

abbrev pub overwrite_row : ℕ → ℕ → TransactionData → Transaction → Transaction
overwrite_row transaction_id user_asset_id d tx =
    if is_row transaction_id user_asset_id tx then overwrite d tx else tx

unfoldable pub update : ℕ → ℕ → TransactionData → Action (Option Transaction)
unfolding get_by_id_for_user_asset
update transaction_id user_asset_id d db =
    elim (get_by_id_for_user_asset transaction_id user_asset_id db) [
      | none ↦ (ok none, db)
      | some tx ↦ (
        ok (some (overwrite d tx)),
        record db {
          transactions = map (overwrite_row transaction_id user_asset_id d) db.transactions;
        },
      )
    ]

abbrev pub other_row : ℕ → ℕ → Transaction → Bool
other_row transaction_id user_asset_id tx =
    if is_row transaction_id user_asset_id tx then false else true

unfoldable pub delete_by_id_for_user_asset : ℕ → ℕ → Action Bool
unfolding get_by_id_for_user_asset
delete_by_id_for_user_asset transaction_id user_asset_id db =
    elim (get_by_id_for_user_asset transaction_id user_asset_id db) [
      | none ↦ (ok false, db)
      | some tx ↦ (
        ok true,
        record db {
          transactions = filter (other_row transaction_id user_asset_id) db.transactions;
        },
      )
    ]

unfoldable pub get_user_asset : ℕ → Database → Option UserAsset
get_user_asset user_asset_id db = find (λ (ua : UserAsset). ua.id == user_asset_id) db.user_assets
