-- ===== src/Sync/Trades.antt =====
-- The imports of trades of backend/app/services/exchange_sync.py. The rows of an adapter and of a
-- parser have one shape here: `_get_or_create_symbol` gives an adapter's rows the type and the
-- exchange of their source, so keying its cache by all three is keying it by the symbol.
use assetlog.Prelude.{
  is_text, ℕ, suc, String, Bool, not, ◌&&◌, Option, none, some, List, [], ◌∷◌, ◌++◌, map, filter,
  find, any, length, ◌==◌, ◌==ₛ◌, if◌then◌else◌,
}
use assetlog.Prelude.Int.{ℤ}
use assetlog.Db.{
  Transaction, TransactionType, AssetSymbol, AssetType, UserAsset, Action, integrity, pure, gets,
  modify, ◌>>=◌, ◌>>◌, raise_if,
}
use assetlog.Sync.Records.{
  ExchangeSource, value, asset_type_for, exchange_label_for, ExternalTrade, ParsedTrade, SyncResult,
}
use assetlog.Sync.Symbols.{
  Resolvers, same_type, get_or_create_symbol_by_attrs, get_or_create_user_asset,
}

pub record Incoming : Type 0 where
  pub external_id : String
  pub symbol : String
  pub asset_type : AssetType
  pub exchange : String
  pub currency : String
  pub name : Option String
  pub side : TransactionType
  pub quantity : ℤ
  pub price : ℤ
  pub fee : ℤ
  pub traded_at : ℕ

unfoldable pub of_external : ExchangeSource → ExternalTrade → Incoming
unfolding asset_type_for exchange_label_for
of_external source t = record {
  external_id = t.external_id;
  symbol = t.symbol;
  asset_type = asset_type_for source;
  exchange = exchange_label_for source;
  currency = t.quote_currency;
  name = none;
  side = t.side;
  quantity = t.quantity;
  price = t.price;
  fee = t.fee;
  traded_at = t.traded_at;
}

unfoldable pub of_parsed : ParsedTrade → Incoming
of_parsed t = record {
  external_id = t.external_id;
  symbol = t.symbol;
  asset_type = t.asset_type;
  exchange = t.exchange;
  currency = t.currency;
  name = some t.name;
  side = t.side;
  quantity = t.quantity;
  price = t.price;
  fee = t.fee;
  traded_at = t.traded_at;
}

abbrev pub elem : String → List String → Bool
elem s ids = any (λ t. t ==ₛ s) ids

-- UNIQUE (external_source, external_id) looks for this.
abbrev pub is_key : String → String → Transaction → Bool
is_key source id tx = is_text tx.external_source source && is_text tx.external_id id

abbrev pub has_key : String → String → List Transaction → Bool
has_key source id rows = any (is_key source id) rows

-- The result set of the query, as a list.
unfoldable pub existing_tx_external_ids : String → List String → List Transaction → List String
existing_tx_external_ids source ids [] = []
existing_tx_external_ids source ids (tx ∷ rest) =
    let later = existing_tx_external_ids source ids rest in
    elim tx.external_id [
      | none ↦ later
      | some id ↦ if is_text tx.external_source source && elem id ids then id ∷ later else later
    ]

-- The local variables of a run.
pub record Progress : Type 0 where
  pub existing_ids : List String
  pub symbol_cache : List (Incoming × AssetSymbol)
  pub asset_cache : List (ℕ × UserAsset)
  pub inserted : ℕ
  pub skipped_dup : ℕ

abbrev pub begin : List String → Progress
begin ids = record {
  existing_ids = ids;
  symbol_cache = [];
  asset_cache = [];
  inserted = 0;
  skipped_dup = 0;
}

-- Equality of `cache_key`.
abbrev pub same_cache_key : Incoming → Incoming → Bool
same_cache_key a b =
    a.symbol ==ₛ b.symbol && (same_type a.asset_type b.asset_type && a.exchange ==ₛ b.exchange)

abbrev pub keep_symbol : Incoming → Progress → AssetSymbol → Action (AssetSymbol × Progress)
keep_symbol row p symbol = pure (symbol, record p { symbol_cache = (row, symbol) ∷ p.symbol_cache })

abbrev pub or_look_up_symbol :
    Option (Incoming × AssetSymbol)
    → Resolvers
    → Incoming
    → Progress
    → Action (AssetSymbol × Progress)
or_look_up_symbol (some (_, symbol)) env row p = pure (symbol, p)
or_look_up_symbol none env row p = do
  symbol ←
      get_or_create_symbol_by_attrs env row.symbol row.asset_type row.exchange row.currency row.name
  keep_symbol row p symbol

unfoldable pub cached_symbol : Resolvers → Incoming → Progress → Action (AssetSymbol × Progress)
unfolding find get_or_create_symbol_by_attrs
cached_symbol env row p =
    or_look_up_symbol (find (λ (e : Incoming × AssetSymbol). same_cache_key e.0 row) p.symbol_cache)
      env row p

abbrev pub keep_asset : ℕ → Progress → UserAsset → Action (UserAsset × Progress)
keep_asset symbol_id p asset =
    pure (asset, record p { asset_cache = (symbol_id, asset) ∷ p.asset_cache })

abbrev pub or_look_up_asset : Option (ℕ × UserAsset) → ℕ → Progress → Action (UserAsset × Progress)
or_look_up_asset (some (_, asset)) symbol_id p = pure (asset, p)
or_look_up_asset none symbol_id p = do
  asset ← get_or_create_user_asset symbol_id
  keep_asset symbol_id p asset

unfoldable pub cached_asset : ℕ → Progress → Action (UserAsset × Progress)
unfolding find get_or_create_user_asset
cached_asset symbol_id p =
    or_look_up_asset (find (λ (e : ℕ × UserAsset). e.0 == symbol_id) p.asset_cache) symbol_id p

abbrev pub new_row : String → Incoming → ℕ → ℕ → Transaction
new_row source row asset_id id = record {
  id = id;
  user_asset_id = asset_id;
  type = row.side;
  quantity = row.quantity;
  price = row.price;
  fee = row.fee;
  traded_at = row.traded_at;
  memo = none;
  tag = none;
  external_source = some source;
  external_id = some row.external_id;
}

-- `session.add`, with the constraint that the flush checks.
unfoldable pub insert_transaction : String → Incoming → ℕ → Action (Unit {0})
insert_transaction source row asset_id = do
  taken ← gets (λ db. has_key source row.external_id db.transactions)
  raise_if taken integrity
  modify (λ db. record db {
    transactions = db.transactions ++ new_row source row asset_id db.next_transaction ∷ [];
    next_transaction = suc db.next_transaction;
  })

abbrev pub insert_for : String → Incoming → UserAsset × Progress → Action Progress
insert_for source row (asset, p) = do
  insert_transaction source row asset.id
  pure (record p { existing_ids = row.external_id ∷ p.existing_ids; inserted = suc p.inserted })

abbrev pub insert_under : String → Incoming → AssetSymbol × Progress → Action Progress
insert_under source row (symbol, p) = do
  with_asset ← cached_asset symbol.id p
  insert_for source row with_asset

-- A row that goes in.
unfoldable pub insert_step : Resolvers → String → Incoming → Progress → Action Progress
unfolding cached_symbol cached_asset insert_transaction
insert_step env source row p = do
  with_symbol ← cached_symbol env row p
  insert_under source row with_symbol

-- The body of the loop.
unfoldable pub import_step : Resolvers → String → Incoming → Progress → Action Progress
unfolding insert_step
import_step env source row p =
    if elem row.external_id p.existing_ids
    then pure (record p { skipped_dup = suc p.skipped_dup })
    else insert_step env source row p

module _ (step : Incoming → Progress → Action Progress) where
  unfoldable pub for_each : List Incoming → Progress → Action Progress
  for_each [] p = pure p
  for_each (row ∷ rest) p = step row p >>= for_each rest

abbrev pub ids_of : List Incoming → List String
ids_of rows = map (λ (r : Incoming). r.external_id) rows

-- What `import_trades` and `_import_parsed_trades` share.
unfoldable pub import_new : Resolvers → String → List Incoming → Action Progress
unfolding existing_tx_external_ids for_each import_step
import_new env source rows = do
  existing ← gets (λ db. existing_tx_external_ids source (ids_of rows) db.transactions)
  for_each (import_step env source) rows (begin existing)

abbrev pub sync_result : ℕ → ℕ → ℕ → SyncResult
sync_result fetched inserted skipped = record {
  fetched = fetched;
  inserted = inserted;
  skipped_duplicate = skipped;
  skipped_no_symbol = 0;
}

unfoldable pub import_trades : Resolvers → ExchangeSource → List ExternalTrade → Action SyncResult
unfolding of_external import_new
import_trades env source [] = pure (sync_result 0 0 0)
import_trades env source (t ∷ rest) = do
  p ← import_new env (value source) (map (of_external source) (t ∷ rest))
  pure (sync_result (length (t ∷ rest)) p.inserted p.skipped_dup)

unfoldable pub import_parsed_trades : Resolvers → ExchangeSource → List ParsedTrade → Action ℕ
unfolding of_parsed import_new
import_parsed_trades env source [] = pure 0
import_parsed_trades env source (t ∷ rest) = do
  p ← import_new env (value source) (map of_parsed (t ∷ rest))
  pure p.inserted

abbrev pub of_other_source : String → Transaction → Bool
of_other_source source tx = not (is_text tx.external_source source)

-- Delete what came from the source, then insert all rows: here nothing is skipped.
unfoldable pub replace_trades : Resolvers → ExchangeSource → List ExternalTrade → Action SyncResult
unfolding filter of_external for_each insert_step
replace_trades env source trades = do
  modify
      (λ db. record db { transactions = filter (of_other_source (value source)) db.transactions })
  p ← for_each (insert_step env (value source)) (map (of_external source) trades) (begin [])
  pure (sync_result (length trades) p.inserted 0)
