-- ===== src/Cash/Totals.antt =====
-- The balance of a currency is the sum of what each row does to it.
use assetlog.Prelude.{String, ◌≡◌, List, [], ◌∷◌, ◌==ₛ◌, if◌then◌else◌}
use assetlog.Prelude.Int.{ℤ, pos, ◌+ℤ◌, int_laws}
use assetlog.Prelude.Sums.{sum_of}
use assetlog.Prelude.Dict.{Dict, lookup, get_or, bump, get_or-bump}
use assetlog.Db.{Database, CashTx, Dividend}
use assetlog.Cash.Rows.{TradeRow, select_trades}
use assetlog.Cash.Flow.{cash_delta, trade_delta, dividend_delta, bump_all, net_cash_by_currency}

module _ {ℓ} {A : Type ℓ} (ccy : A → String) (delta : A → ℤ) where
  -- What the rows of one currency sum to.
  abbrev pub total_in : String → List A → ℤ
  total_in c rows = sum_of (λ r. if ccy r ==ₛ c then delta r else pos 0) rows

  pub get_or-bump_all :
      (c : String) (rows : List A) (balances : Dict ℤ)
      → get_or c (pos 0) (bump_all ccy delta rows balances)
        ≡ get_or c (pos 0) balances +ℤ total_in c rows
  unfolding bump_all sum_of
  get_or-bump_all c [] balances = omega int_laws
  get_or-bump_all c (r ∷ rest) balances =
      rw
        (
          get_or-bump_all c rest (bump (ccy r) (delta r) balances),
          get_or-bump (ccy r) c (delta r) balances,
        )
        (omega int_laws)

-- What the three tables say of a currency.
abbrev pub ledger_total : String → Database → ℤ
ledger_total c db =
    total_in (λ (r : CashTx). r.currency) cash_delta c db.cash_txs
    +ℤ total_in (λ (r : TradeRow). r.currency) trade_delta c (select_trades db db.transactions)
    +ℤ total_in (λ (r : Dividend). r.currency) dividend_delta c db.dividends

-- The balance of each currency is the sum over its cash, trade and dividend rows; a currency without
-- rows has none.
pub net_cash_total :
    (c : String) (db : Database) → get_or c (pos 0) (net_cash_by_currency db) ≡ ledger_total c db
unfolding net_cash_by_currency get_or lookup
net_cash_total c db = simp get_or-bump_all (omega int_laws)
