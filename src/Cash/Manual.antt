-- ===== src/Cash/Manual.antt =====
-- What a trade that the owner enters by hand does to the cash balances.
use assetlog.Prelude.{ℕ, ◌≡◌, refl, ◌∙◌, false, List, [], ◌∷◌, ◌++◌, arith, inl, inr}
use mathlib.Core.Path.{ap₂}
use assetlog.Db.{Database, Transaction}
use assetlog.Cash.Rows.{moves_cash, quote_in, select_trades}
use assetlog.Cash.Flow.{net_cash_by_currency, net_cash_by_source_and_currency}
use assetlog.Trades.{TransactionData, add, create, of_data}
use assetlog.Trades.Writes.{add_outcome}

select_trades-append :
    (db : Database) (rows : List Transaction) (tx : Transaction)
    → moves_cash tx ≡ false
    → select_trades db (rows ++ tx ∷ []) ≡ select_trades db rows
unfolding select_trades
select_trades-append db [] tx e = rw e
select_trades-append db (u ∷ rows) tx e = ground (arith, select_trades-append db rows tx e)

-- The query depends on the joined tables only through the quote currency.
select_trades-joined :
    (db after : Database) (rows : List Transaction)
    → after.user_assets ≡ db.user_assets
    → after.asset_symbols ≡ db.asset_symbols
    → select_trades after rows ≡ select_trades db rows
unfolding select_trades
select_trades-joined db after [] ua sy = refl
select_trades-joined db after (u ∷ rows) ua sy =
    ground
      (arith, select_trades-joined db after rows ua sy, ap₂ (λ uas syms. quote_in uas syms u) ua sy)

net_cash-create :
    (uid : ℕ) (d : TransactionData) (db : Database)
    → let after = (create uid d db).1 in
      (net_cash_by_currency after ≡ net_cash_by_currency db)
      × (net_cash_by_source_and_currency after ≡ net_cash_by_source_and_currency db)
unfolding create net_cash_by_currency net_cash_by_source_and_currency moves_cash
net_cash-create uid d db =
    let tx = of_data db.next_transaction uid d in
    let after = (create uid d db).1 in
    let same =
      select_trades-joined db after (db.transactions ++ tx ∷ []) refl refl
      ∙ select_trades-append db db.transactions tx refl in
    (rw same, rw same)

-- A trade that the owner records moves no cash balance, of any source or currency: its external id
-- is NULL, and the query drops such rows.
pub net_cash-add :
    (uid : ℕ) (d : TransactionData) (db : Database)
    → let after = (add uid d db).1 in
      (net_cash_by_currency after ≡ net_cash_by_currency db)
      × (net_cash_by_source_and_currency after ≡ net_cash_by_source_and_currency db)
net_cash-add uid d db = elim (add_outcome uid d db) [
  | inl (_, e) ↦ rw e (refl, refl)
  | inr (inl (_, _, _, e)) ↦ rw e (refl, refl)
  | inr (inr (_, _, e)) ↦ rw e (net_cash-create uid d db)
]
