-- ===== src/Db/Rows.antt =====
-- The rows of the tables: backend/app/models, and the enumerations of backend/app/domain.
use assetlog.Prelude.{ℕ, String, Bool, true, false, Option, List, []}
use assetlog.Prelude.Int.{ℤ}

-- domain/transaction_type.py
pub data TransactionType : Type 0 where
  buy sell : TransactionType

-- domain/asset_type.py
pub data AssetType : Type 0 where
  crypto kr_stock us_stock : AssetType

-- models/cash_account_transaction.py
pub data CashTxKind : Type 0 where
  deposit withdraw interest interest_tax transfer_in transfer_out : CashTxKind

-- The column defaults and `created_at`, `updated_at` are left out: nothing modelled reads them.
pub record Transaction : Type 0 where
  pub id : ℕ
  pub user_asset_id : ℕ
  pub type : TransactionType
  pub quantity : ℤ
  pub price : ℤ
  pub fee : ℤ
  pub traded_at : ℕ
  pub memo : Option String
  pub tag : Option String
  pub external_source : Option String
  pub external_id : Option String

pub record CashTx : Type 0 where
  pub id : ℕ
  pub kind : CashTxKind
  pub amount : ℤ
  pub withholding_tax : ℤ
  pub currency : String
  pub traded_at : ℕ
  pub external_source : Option String
  pub external_id : Option String

pub record Dividend : Type 0 where
  pub id : ℕ
  pub asset_symbol_id : ℕ
  pub ex_date : ℕ
  pub amount : ℤ
  pub withholding_tax : ℤ
  pub currency : String
  pub external_source : Option String
  pub external_id : Option String

pub record AssetSymbol : Type 0 where
  pub id : ℕ
  pub asset_type : AssetType
  pub symbol : String
  pub exchange : String
  pub name : String
  pub currency : String

pub record UserAsset : Type 0 where
  pub id : ℕ
  pub asset_symbol_id : ℕ

-- models/login_attempt.py
pub record LoginAttempt : Type 0 where
  pub ip : String
  pub success : Bool
  pub attempted_at : ℕ

-- The database; `next_…` is the value that AUTO_INCREMENT gives out next.
pub record Database : Type 0 where
  pub transactions : List Transaction
  pub next_transaction : ℕ
  pub cash_txs : List CashTx
  pub next_cash_tx : ℕ
  pub dividends : List Dividend
  pub next_dividend : ℕ
  pub asset_symbols : List AssetSymbol
  pub next_asset_symbol : ℕ
  pub user_assets : List UserAsset
  pub next_user_asset : ℕ
  pub login_attempts : List LoginAttempt

abbrev pub empty_database : Database
empty_database = record {
  transactions = [];
  next_transaction = 1;
  cash_txs = [];
  next_cash_tx = 1;
  dividends = [];
  next_dividend = 1;
  asset_symbols = [];
  next_asset_symbol = 1;
  user_assets = [];
  next_user_asset = 1;
  login_attempts = [];
}

abbrev pub is_buy : TransactionType → Bool
is_buy TransactionType.buy = true
is_buy TransactionType.sell = false
