-- ===== src/Trades/Timeline.antt =====
-- The running-balance check that `TransactionService.import_csv` and
-- `BulkTransactionService._validate_running_balance` make before they write.
use assetlog.Prelude.{ℕ, suc, Bool, Option, none, some, List, [], ◌∷◌, ◌++◌, leb, if◌then◌else◌}
use assetlog.Prelude.Int.{ℤ, pos, ◌+ℤ◌, ◌-ℤ◌, ltb_ℤ}
use assetlog.Db.{Database, Transaction, TransactionType, is_buy}
use assetlog.Trades.Repo.{TransactionData, of_data}

-- `_TxProxy`; row 0 stands for a row that is in the database.
pub record Proxy : Type 0 where
  pub traded_at : ℕ
  pub tx_type : TransactionType
  pub quantity : ℤ
  pub row_idx : ℕ

abbrev pub of_existing : Transaction → Proxy
of_existing tx = record {
  traded_at = tx.traded_at;
  tx_type = tx.type;
  quantity = tx.quantity;
  row_idx = 0;
}

abbrev pub of_data_row : ℕ → TransactionData → Proxy
of_data_row row d = record {
  traded_at = d.traded_at;
  tx_type = d.type;
  quantity = d.quantity;
  row_idx = row;
}

abbrev pub by_time : Proxy → Proxy → Bool
by_time a b = leb a.traded_at b.traded_at

-- The change of the balance that a trade makes.
abbrev pub signed : Proxy → ℤ
signed p = if is_buy p.tx_type then p.quantity else pos 0 -ℤ p.quantity

abbrev pub step : ℤ → Proxy → ℤ
step running p = if is_buy p.tx_type then running +ℤ p.quantity else running -ℤ p.quantity

-- The loop over the timeline, with its `break`: the first trade after which the balance is below 0.
unfoldable pub first_negative : ℤ → List Proxy → Option Proxy
first_negative running [] = none
first_negative running (p ∷ rest) =
    let later = first_negative (step running p) rest in
    if ltb_ℤ (step running p) (pos 0) then some p else later

-- `session.add_all` and `flush`: one row for each, with the next ids.
unfoldable pub add_all : ℕ → List TransactionData → Database → Database
add_all user_asset_id [] db = db
add_all user_asset_id (d ∷ rest) db = add_all user_asset_id rest (record db {
  transactions = db.transactions ++ of_data db.next_transaction user_asset_id d ∷ [];
  next_transaction = suc db.next_transaction;
})
