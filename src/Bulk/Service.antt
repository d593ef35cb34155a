-- ===== src/Bulk/Service.antt =====
-- `BulkTransactionService.import_json` of backend/app/services/bulk_transaction.py. `upper` stands for
-- `str.upper`.
use assetlog.Prelude.{
  ℕ, suc, ◌+◌, String, Bool, false, not, ◌&&◌, Option, none, some, List, [], ◌∷◌, ◌++◌, map, filter,
  take, length, find, ltb, ◌==◌, ◌==ₛ◌, if◌then◌else◌,
}
use assetlog.Prelude.Int.{pos}
use assetlog.Prelude.Sorting.{sort, by_key}
use assetlog.Db.{
  Database, Transaction, AssetSymbol, UserAsset, Action, Violation, ok, err, csv_import_validation,
}
use assetlog.Trades.{
  TransactionData, of_data, list_all_for_user_asset, Proxy, first_negative, by_time, of_existing,
  of_data_row,
}

pub record BulkRow : Type 0 where
  pub symbol : String
  pub exchange : String
  pub base : TransactionData

abbrev pub violation : ℕ → Option String → String → Violation
violation row field message = record { row = row; field = field; message = message }

-- Whether the asset's symbol is the one of the key.
abbrev is_listed_as : Database → String → String → UserAsset → Bool
is_listed_as db symbol exchange ua =
    elim (find (λ (s : AssetSymbol). s.id == ua.asset_symbol_id) db.asset_symbols) [
      | none ↦ false
      | some s ↦ s.symbol ==ₛ symbol && s.exchange ==ₛ exchange
    ]

-- `get_user_asset_ids_by_symbol_exchange`, at one pair: of two assets the later one is in the dict.
unfoldable pub user_asset_id_of : Database → String → String → List UserAsset → Option ℕ
unfolding find
user_asset_id_of db symbol exchange [] = none
user_asset_id_of db symbol exchange (ua ∷ rest) = elim (user_asset_id_of db symbol exchange rest) [
  | some id ↦ some id
  | none ↦ if is_listed_as db symbol exchange ua then some ua.id else none
]

-- A row with its asset, if it has one.
abbrev pub Resolved : Type 0
Resolved = ℕ × TransactionData

module _ (upper : String → String) where
  -- The errors of the rows without an asset, and the rows with theirs.
  unfoldable pub resolve_rows : Database → ℕ → List BulkRow → List Violation × List Resolved
  unfolding user_asset_id_of
  resolve_rows db idx [] = ([], [])
  resolve_rows db idx (row ∷ rest) =
      let (errors, found) = resolve_rows db (suc idx) rest in
      elim (user_asset_id_of db (upper row.symbol) (upper row.exchange) db.user_assets) [
        | none ↦ (
          violation (idx + 1) (some "symbol") "Unknown symbol — register the asset first." ∷ errors,
          found,
        )
        | some uid ↦ (errors, (uid, row.base) ∷ found)
      ]

-- The keys of `new_by_ua`, in the order in which they come.
unfoldable pub distinct_ids : List ℕ → List ℕ
unfolding filter
distinct_ids [] = []
distinct_ids (x ∷ xs) = x ∷ filter (λ y. not (y == x)) (distinct_ids xs)

-- `new_by_ua[uid]`
unfoldable pub new_proxies : ℕ → ℕ → List Resolved → List Proxy
new_proxies uid idx [] = []
new_proxies uid idx ((u, d) ∷ rest) =
    let later = new_proxies uid (suc idx) rest in
    if u == uid then of_data_row (idx + 1) d ∷ later else later

unfoldable pub asset_timeline : Database → List Resolved → ℕ → List Proxy
unfolding sort new_proxies list_all_for_user_asset
asset_timeline db rows uid =
    sort by_time (map of_existing (list_all_for_user_asset uid db) ++ new_proxies uid 0 rows)

-- `_validate_running_balance`: one error for each asset at most.
unfoldable pub validate_running_balance : Database → List Resolved → List ℕ → List Violation
unfolding asset_timeline first_negative
validate_running_balance db rows [] = []
validate_running_balance db rows (uid ∷ uids) =
    let later = validate_running_balance db rows uids in
    elim (first_negative (pos 0) (asset_timeline db rows uid)) [
      | none ↦ later
      | some p ↦ violation p.row_idx none "Running balance would go negative" ∷ later
    ]

-- `add_all` and `flush`
unfoldable pub insert_all : List Resolved → Database → Database
insert_all [] db = db
insert_all ((uid, d) ∷ rest) db = insert_all rest (record db {
  transactions = db.transactions ++ of_data db.next_transaction uid d ∷ [];
  next_transaction = suc db.next_transaction;
})

unfoldable pub inserted_rows : ℕ → List Resolved → List Transaction
inserted_rows next [] = []
inserted_rows next ((uid, d) ∷ rest) = of_data next uid d ∷ inserted_rows (suc next) rest

abbrev pub uids_of : List Resolved → List ℕ
uids_of rows = distinct_ids (map (λ (r : Resolved). r.0) rows)

abbrev pub refuse_or {ℓ} : {A : Type ℓ} → List Violation → Action A → Action A
refuse_or [] go db = go db
refuse_or (v ∷ vs) go db = (err (csv_import_validation (v ∷ vs)), db)

abbrev pub count_errors : List BulkRow → List Violation
count_errors rows =
    if length rows == 0
    then violation 0 none "No rows to import." ∷ []
    else if ltb 500 (length rows)
    then violation 0 none "Too many rows" ∷ []
    else []

abbrev pub preview_of : List Transaction → List Transaction
preview_of new_txs = take 10 (sort (by_key (λ (t : Transaction). t.traded_at)) new_txs)

abbrev pub insert_and_preview : List Resolved → Action (ℕ × List Transaction)
insert_and_preview rows db =
    let new_txs = inserted_rows db.next_transaction rows in
    (ok (length new_txs, preview_of new_txs), insert_all rows db)

unfoldable pub import_json : (String → String) → List BulkRow → Action (ℕ × List Transaction)
unfolding resolve_rows distinct_ids validate_running_balance insert_all inserted_rows
import_json upper rows db =
    let (errors, found) = resolve_rows upper db 0 rows in
    refuse_or (count_errors rows)
      (refuse_or errors
        (refuse_or (validate_running_balance db found (uids_of found)) (insert_and_preview found)))
      db
