-- ===== src/Sync/CashTxs.antt =====
-- The imports of cash rows of backend/app/services/exchange_sync.py.
use assetlog.Prelude.{
  is_text, ℕ, suc, String, Bool, false, not, ◌&&◌, Option, none, some, List, [], ◌∷◌, ◌++◌, map,
  filter, starts_with, leb, ◌==◌, ◌==ₛ◌, if◌then◌else◌,
}
use assetlog.Prelude.Int.{ℤ, pos}
use assetlog.Prelude.Sorting.{sort}
use assetlog.Db.{Database, CashTx, CashTxKind}
use assetlog.Sync.Records.{ExchangeSource, value, ParsedCashTxKind, ParsedCashTx}
use assetlog.Sync.Trades.{elem}

unfoldable pub existing_cash_tx_external_ids : String → List String → List CashTx → List String
existing_cash_tx_external_ids source ids [] = []
existing_cash_tx_external_ids source ids (r ∷ rest) =
    let later = existing_cash_tx_external_ids source ids rest in
    elim r.external_id [
      | none ↦ later
      | some id ↦ if is_text r.external_source source && elem id ids then id ∷ later else later
    ]

-- `kind_map`
unfoldable pub kind_of_parsed : ParsedCashTxKind → CashTxKind
kind_of_parsed ParsedCashTxKind.interest = CashTxKind.interest
kind_of_parsed ParsedCashTxKind.interest_tax = CashTxKind.interest_tax
kind_of_parsed ParsedCashTxKind.deposit = CashTxKind.deposit
kind_of_parsed ParsedCashTxKind.withdraw = CashTxKind.withdraw
kind_of_parsed ParsedCashTxKind.transfer_in = CashTxKind.transfer_in
kind_of_parsed ParsedCashTxKind.transfer_out = CashTxKind.transfer_out

abbrev pub cash_row : String → ParsedCashTx → ℕ → CashTx
cash_row source c id = record {
  id = id;
  kind = kind_of_parsed c.kind;
  amount = c.amount;
  withholding_tax = c.withholding_tax;
  currency = c.currency;
  traded_at = c.traded_at;
  external_source = some source;
  external_id = some c.external_id;
}

abbrev pub add_cash_row : (ℕ → CashTx) → Database → Database
add_cash_row row db = record db {
  cash_txs = db.cash_txs ++ row db.next_cash_tx ∷ [];
  next_cash_tx = suc db.next_cash_tx;
}

-- The loop. The ids that it knows grow with every row that it adds, so no key comes twice.
unfoldable pub add_new_cash_txs :
    String → List ParsedCashTx → List String → ℕ → Database → ℕ × Database
unfolding kind_of_parsed
add_new_cash_txs source [] existing_ids inserted db = (inserted, db)
add_new_cash_txs source (c ∷ rest) existing_ids inserted db =
    let known = elem c.external_id existing_ids in
    add_new_cash_txs source rest (if known then existing_ids else c.external_id ∷ existing_ids)
      (if known then inserted else suc inserted)
      (if known then db else add_cash_row (cash_row source c) db)

abbrev pub is_opening : String → CashTx → Bool
is_opening source r =
    is_text r.external_source source
    && (elim r.external_id [ none ↦ false | some id ↦ starts_with id "toss-opening-" ])

abbrev pub earlier : CashTx → CashTx → Bool
earlier a b = leb a.traded_at b.traded_at

-- The openings in the order of the query, ties by id. With one or none the DELETE has nothing to delete.
abbrev pub openings : String → List CashTx → List CashTx
openings source rows = sort earlier (filter (is_opening source) rows)

abbrev pub is_superfluous : String → ℕ → CashTx → Bool
is_superfluous source keep_id r = is_opening source r && not (r.id == keep_id)

abbrev pub keep_first : String → List CashTx → List CashTx → List CashTx
keep_first source [] rows = rows
keep_first source (first ∷ []) rows = rows
keep_first source (first ∷ _ ∷ _) rows = filter (λ r. not (is_superfluous source first.id r)) rows

unfoldable pub collapsed : String → List CashTx → List CashTx
unfolding sort filter
collapsed source rows = keep_first source (openings source rows) rows

unfoldable pub collapse_opening_balances : ExchangeSource → Database → Database
unfolding collapsed
collapse_opening_balances source db = record db { cash_txs = collapsed (value source) db.cash_txs }

unfoldable pub import_parsed_cash_txs : ExchangeSource → List ParsedCashTx → Database → ℕ × Database
unfolding existing_cash_tx_external_ids add_new_cash_txs collapse_opening_balances
import_parsed_cash_txs source [] db = (0, db)
import_parsed_cash_txs source (c ∷ rest) db =
    let ids = map (λ (x : ParsedCashTx). x.external_id) (c ∷ rest) in
    let existing = existing_cash_tx_external_ids (value source) ids db.cash_txs in
    let (inserted, after) = add_new_cash_txs (value source) (c ∷ rest) existing 0 db in
    (inserted, collapse_opening_balances source after)

-- A row of `upsert_cash_transactions`; its kind is a text, and a row of an unknown kind is skipped.
pub record CashFlowRow : Type 0 where
  pub external_id : String
  pub kind : String
  pub amount : ℤ
  pub currency : String
  pub traded_at : ℕ

-- `CashTxKind(…)`
unfoldable pub kind_of_text : String → Option CashTxKind
kind_of_text s =
    if s ==ₛ "deposit"
    then some CashTxKind.deposit
    else if s ==ₛ "withdraw"
    then some CashTxKind.withdraw
    else if s ==ₛ "interest"
    then some CashTxKind.interest
    else if s ==ₛ "interest_tax"
    then some CashTxKind.interest_tax
    else if s ==ₛ "transfer_in"
    then some CashTxKind.transfer_in
    else if s ==ₛ "transfer_out"
    then some CashTxKind.transfer_out
    else none

abbrev pub flow_row : String → CashFlowRow → CashTxKind → ℕ → CashTx
flow_row source r kind id = record {
  id = id;
  kind = kind;
  amount = r.amount;
  withholding_tax = pos 0;
  currency = r.currency;
  traded_at = r.traded_at;
  external_source = some source;
  external_id = some r.external_id;
}

-- The kind of a row that goes in.
abbrev pub wanted : List String → CashFlowRow → Option CashTxKind
wanted existing r = if elem r.external_id existing then none else kind_of_text r.kind

unfoldable pub add_cash_flow : String → List CashFlowRow → List String → ℕ → Database → ℕ × Database
unfolding kind_of_text
add_cash_flow source [] existing inserted db = (inserted, db)
add_cash_flow source (r ∷ rest) existing inserted db = elim (wanted existing r) [
  | none ↦ add_cash_flow source rest existing inserted db
  | some kind ↦
      add_cash_flow source rest (r.external_id ∷ existing) (suc inserted)
        (add_cash_row (flow_row source r kind) db)
]

unfoldable pub upsert_cash_transactions :
    ExchangeSource → List CashFlowRow → Database → ℕ × Database
unfolding existing_cash_tx_external_ids add_cash_flow
upsert_cash_transactions source rows db =
    let ids = map (λ (x : CashFlowRow). x.external_id) rows in
    add_cash_flow (value source) rows (existing_cash_tx_external_ids (value source) ids db.cash_txs)
      0 db
