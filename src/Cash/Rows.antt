-- ===== src/Cash/Rows.antt =====
-- The rows that backend/app/services/cash_flow.py selects. Money is in units of 10^-16, so that an
-- amount (10^-8), a fee (10^-6) and a quantity (10^-10) times a price (10^-6) all are exact.
use assetlog.Prelude.{
  String, Bool, true, false, not, ◌&&◌, Option, none, some, List, [], ◌∷◌, find, starts_with, ◌==◌,
  if◌then◌else◌,
}
use assetlog.Prelude.Int.{ℤ, pos, ◌*ℤ◌}
use assetlog.Db.{
  Database, Transaction, TransactionType, AssetSymbol, UserAsset, CashTxKind, deposit, withdraw,
  interest, interest_tax, transfer_in, transfer_out,
}

abbrev pub of_amount : ℤ → ℤ
of_amount a = a *ℤ pos 100_000_000

abbrev pub of_fee : ℤ → ℤ
of_fee f = f *ℤ pos 10_000_000_000

-- `_POSITIVE_KINDS`; the other three kinds are `_NEGATIVE_KINDS`.
unfoldable pub is_positive : CashTxKind → Bool
is_positive deposit = true
is_positive interest = true
is_positive transfer_in = true
is_positive withdraw = false
is_positive interest_tax = false
is_positive transfer_out = false

-- NOT (external_id LIKE 'upbit:adjust:%') AND NOT (external_id LIKE 'upbit-pdf-transfer-%'), which
-- is not true where external_id is NULL.
unfoldable pub moves_cash : Transaction → Bool
moves_cash tx = elim tx.external_id [
  | none ↦ false
  | some id ↦ not (starts_with id "upbit:adjust:") && not (starts_with id "upbit-pdf-transfer-")
]

-- The currency that the two inner joins give a transaction, if both find their row.
unfoldable pub quote_in : List UserAsset → List AssetSymbol → Transaction → Option String
quote_in user_assets asset_symbols tx =
    elim (find (λ (ua : UserAsset). ua.id == tx.user_asset_id) user_assets) [
      | none ↦ none
      | some ua ↦ elim (find (λ (s : AssetSymbol). s.id == ua.asset_symbol_id) asset_symbols) [
        | none ↦ none
        | some symbol ↦ some symbol.currency
      ]
    ]

abbrev pub quote_currency : Database → Transaction → Option String
quote_currency db tx = quote_in db.user_assets db.asset_symbols tx

-- One result of the joined query.
pub record TradeRow : Type 0 where
  pub type : TransactionType
  pub quantity : ℤ
  pub price : ℤ
  pub fee : ℤ
  pub currency : String
  pub source : Option String

abbrev row_of : Transaction → String → TradeRow
row_of tx currency = record {
  type = tx.type;
  quantity = tx.quantity;
  price = tx.price;
  fee = tx.fee;
  currency = currency;
  source = tx.external_source;
}

-- The query, row by row.
unfoldable pub select_trades : Database → List Transaction → List TradeRow
unfolding moves_cash quote_in
select_trades db [] = []
select_trades db (tx ∷ rest) =
    let later = select_trades db rest in
    if moves_cash tx
    then elim (quote_currency db tx) [ none ↦ later | some c ↦ row_of tx c ∷ later ]
    else later
