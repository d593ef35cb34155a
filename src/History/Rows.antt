-- ===== src/History/Rows.antt =====
-- backend/app/repositories/portfolio_history.py. Quantities and prices are natural numbers of their
-- columns' units, since the schema admits no negative ones; a price point is a row of
-- backend/app/models/price_point.py without its currency, which no query here reads.
use assetlog.Prelude.{
  ℕ, String, Bool, Option, none, some, List, [], ◌∷◌, ltb, leb, not, any, filter, find, ◌++◌, ◌==◌,
  if◌then◌else◌, ◌&&◌,
}
use assetlog.Prelude.Int.{pos_part}
use assetlog.Prelude.Keyed.{Keyed, at_key, at_key_or, set_key}
use assetlog.Prelude.Sorting.{sort}
use assetlog.Db.{Database, Transaction, TransactionType, is_buy, AssetSymbol, UserAsset}

pub record AllTxRow : Type 0 where
  pub symbol_id : ℕ
  pub currency : String
  pub traded_at : ℕ
  pub quantity : ℕ
  pub price : ℕ
  pub tx_type : TransactionType

abbrev pub tx_row : Transaction → AssetSymbol → AllTxRow
tx_row tx symbol = record {
  symbol_id = symbol.id;
  currency = symbol.currency;
  traded_at = tx.traded_at;
  quantity = pos_part tx.quantity;
  price = pos_part tx.price;
  tx_type = tx.type;
}

-- The symbol that the two joins find for a transaction.
abbrev pub symbol_of : Database → Transaction → Option AssetSymbol
symbol_of db tx = elim (find (λ (ua : UserAsset). ua.id == tx.user_asset_id) db.user_assets) [
  | none ↦ none
  | some ua ↦ find (λ (a : AssetSymbol). a.id == ua.asset_symbol_id) db.asset_symbols
]

abbrev pub with_symbol : Transaction → Option AssetSymbol → List AllTxRow → List AllTxRow
with_symbol tx none later = later
with_symbol tx (some symbol) later = tx_row tx symbol ∷ later

abbrev pub joined : Database → List Transaction → List AllTxRow
joined db [] = []
joined db (tx ∷ rest) = with_symbol tx (symbol_of db tx) (joined db rest)

-- `case((type == BUY, 0), else_=1)`
abbrev pub side : TransactionType → ℕ
side type = if is_buy type then 0 else 1

abbrev pub in_order : Transaction → Transaction → Bool
in_order a b =
    if a.traded_at == b.traded_at
    then if side a.type == side b.type then leb a.id b.id else ltb (side a.type) (side b.type)
    else ltb a.traded_at b.traded_at

unfoldable pub list_all_transactions : Database → List AllTxRow
unfolding sort find
list_all_transactions db = joined db (sort in_order db.transactions)

pub record PricePoint : Type 0 where
  pub asset_symbol_id : ℕ
  pub fetched_at : ℕ
  pub price : ℕ

-- `(fetched_at, price)`
pub record Price : Type 0 where
  pub at : ℕ
  pub price : ℕ

abbrev pub price_of : PricePoint → Price
price_of row = record { at = row.fetched_at; price = row.price }

abbrev by_symbol : PricePoint → PricePoint → Bool
by_symbol a b =
    if a.asset_symbol_id == b.asset_symbol_id
    then leb a.fetched_at b.fetched_at
    else ltb a.asset_symbol_id b.asset_symbol_id

-- The two branches of the UNION ALL, and its order.
abbrev price_rows : List ℕ → ℕ → List PricePoint → List PricePoint
price_rows symbol_ids since points =
    let of_symbols = λ (p : PricePoint). any (λ id. id == p.asset_symbol_id) symbol_ids in
    sort by_symbol (
      filter (λ p. of_symbols p && not (ltb p.fetched_at since)) points
      ++ filter (λ p. of_symbols p && ltb p.fetched_at since) points)

-- The loop over the rows: `grouped` and `latest_before`.
unfoldable pub keep_latest : PricePoint → Keyed Price → Keyed Price
unfolding at_key set_key
keep_latest row latest_before = elim (at_key row.asset_symbol_id latest_before) [
  | none ↦ set_key row.asset_symbol_id (price_of row) latest_before
  | some seed ↦
      if ltb seed.at row.fetched_at
      then set_key row.asset_symbol_id (price_of row) latest_before
      else latest_before
]

abbrev add_point : PricePoint → Keyed (List Price) → Keyed (List Price)
add_point row grouped =
    set_key row.asset_symbol_id (at_key_or row.asset_symbol_id [] grouped ++ price_of row ∷ [])
      grouped

unfoldable pub group_rows :
    ℕ → List PricePoint → Keyed (List Price) → Keyed Price → Keyed (List Price) × Keyed Price
unfolding keep_latest at_key_or set_key
group_rows since [] grouped latest_before = (grouped, latest_before)
group_rows since (row ∷ rows) grouped latest_before =
    let old = ltb row.fetched_at since in
    group_rows since rows (if old then grouped else add_point row grouped)
      (if old then keep_latest row latest_before else latest_before)

-- The seed goes to the front of its symbol's list.
unfoldable pub inject_seeds : Keyed Price → Keyed (List Price) → Keyed (List Price)
unfolding at_key_or set_key
inject_seeds [] grouped = grouped
inject_seeds ((sym_id, seed) ∷ seeds) grouped =
    inject_seeds seeds (set_key sym_id (seed ∷ at_key_or sym_id [] grouped) grouped)

abbrev pub by_time : Price → Price → Bool
by_time a b = leb a.at b.at

abbrev pub sorted_lists : Keyed (List Price) → Keyed (List Price)
sorted_lists [] = []
sorted_lists ((sym_id, prices) ∷ rest) = (sym_id, sort by_time prices) ∷ sorted_lists rest

unfoldable pub list_price_points_for_symbols : List ℕ → ℕ → List PricePoint → Keyed (List Price)
unfolding group_rows inject_seeds filter sort
list_price_points_for_symbols [] since points = []
list_price_points_for_symbols (id ∷ symbol_ids) since points =
    let (grouped, latest_before) =
      group_rows since (price_rows (id ∷ symbol_ids) since points) [] [] in
    sorted_lists (inject_seeds latest_before grouped)
