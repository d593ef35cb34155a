-- ===== src/Sync/Records.antt =====
-- What an adapter or a parser hands to the import: backend/app/domain/exchange_sync.py and
-- backend/app/adapters/parsers/base.py.
use assetlog.Prelude.{ℕ, String}
use assetlog.Prelude.Int.{ℤ}
use assetlog.Db.{TransactionType, AssetType, crypto, kr_stock, us_stock}

pub data ExchangeSource : Type 0 where
  upbit bithumb binance shinhan kis toss_securities k_bank : ExchangeSource

-- `source.value`
abbrev pub value : ExchangeSource → String
value upbit = "upbit"
value bithumb = "bithumb"
value binance = "binance"
value shinhan = "shinhan_investment"
value kis = "kis"
value toss_securities = "toss_investment"
value k_bank = "k_bank"

pub record ExternalTrade : Type 0 where
  pub external_id : String
  pub symbol : String
  pub quote_currency : String
  pub side : TransactionType
  pub quantity : ℤ
  pub price : ℤ
  pub traded_at : ℕ
  pub fee : ℤ

pub record SyncResult : Type 0 where
  pub fetched : ℕ
  pub inserted : ℕ
  pub skipped_duplicate : ℕ
  pub skipped_no_symbol : ℕ

pub record ParsedTrade : Type 0 where
  pub external_id : String
  pub symbol : String
  pub asset_type : AssetType
  pub exchange : String
  pub side : TransactionType
  pub quantity : ℤ
  pub price : ℤ
  pub currency : String
  pub traded_at : ℕ
  pub name : String
  pub fee : ℤ

pub data ParsedCashTxKind : Type 0 where
  interest interest_tax deposit withdraw transfer_in transfer_out : ParsedCashTxKind

pub record ParsedCashTx : Type 0 where
  pub external_id : String
  pub kind : ParsedCashTxKind
  pub amount : ℤ
  pub currency : String
  pub traded_at : ℕ
  pub withholding_tax : ℤ

unfoldable pub asset_type_for : ExchangeSource → AssetType
asset_type_for upbit = crypto
asset_type_for bithumb = crypto
asset_type_for binance = crypto
asset_type_for shinhan = kr_stock
asset_type_for toss_securities = kr_stock
asset_type_for kis = us_stock
asset_type_for k_bank = us_stock

unfoldable pub exchange_label_for : ExchangeSource → String
exchange_label_for upbit = "UPBIT"
exchange_label_for bithumb = "BITHUMB"
exchange_label_for binance = "BINANCE"
exchange_label_for shinhan = "KRX"
exchange_label_for kis = "KRX"
exchange_label_for toss_securities = ""
exchange_label_for k_bank = "NYSE"
