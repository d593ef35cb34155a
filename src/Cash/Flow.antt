-- ===== src/Cash/Flow.antt =====
-- backend/app/services/cash_flow.py
use assetlog.Prelude.{String, Option, none, some, List, [], ◌∷◌, ◌==ₛ◌, if◌then◌else◌}
use assetlog.Prelude.Int.{ℤ, pos, ◌-ℤ◌, ◌*ℤ◌}
use assetlog.Prelude.Dict.{Dict, insert, get_or, bump}
use assetlog.Db.{Database, CashTx, Dividend, is_buy}
use assetlog.Cash.Rows.{of_amount, of_fee, is_positive, TradeRow, select_trades}

-- What each row does to the balance of its currency.
abbrev pub cash_delta : CashTx → ℤ
cash_delta r =
    if is_positive r.kind
    then of_amount r.amount -ℤ of_amount r.withholding_tax
    else pos 0 -ℤ of_amount r.amount

abbrev pub trade_delta : TradeRow → ℤ
trade_delta r =
    let gross = r.quantity *ℤ r.price in
    if is_buy r.type then pos 0 -ℤ gross -ℤ of_fee r.fee else gross -ℤ of_fee r.fee

abbrev pub dividend_delta : Dividend → ℤ
dividend_delta r = of_amount r.amount -ℤ of_amount r.withholding_tax

-- One `for` loop over the rows of a query.
unfoldable pub bump_all {ℓ} : {A : Type ℓ} → (A → String) → (A → ℤ) → List A → Dict ℤ → Dict ℤ
unfolding bump
bump_all ccy delta [] balances = balances
bump_all ccy delta (r ∷ rest) balances = bump_all ccy delta rest (bump (ccy r) (delta r) balances)

unfoldable pub net_cash_by_currency : Database → Dict ℤ
unfolding bump_all select_trades is_positive
net_cash_by_currency db =
    bump_all (λ (r : Dividend). r.currency) dividend_delta db.dividends
      (bump_all (λ (r : TradeRow). r.currency) trade_delta (select_trades db db.transactions)
        (bump_all (λ (r : CashTx). r.currency) cash_delta db.cash_txs []))

-- `src or "manual"`
unfoldable pub source_or_manual : Option String → String
source_or_manual none = "manual"
source_or_manual (some s) = if s ==ₛ "" then "manual" else s

-- `_bump`
unfoldable pub bump_source : Option String → String → ℤ → Dict (Dict ℤ) → Dict (Dict ℤ)
unfolding source_or_manual get_or insert bump
bump_source src ccy delta result =
    let s = source_or_manual src in insert s (bump ccy delta (get_or s [] result)) result

unfoldable pub bump_all_sources {ℓ} :
    {A : Type ℓ}
    → (A → Option String)
    → (A → String)
    → (A → ℤ)
    → List A
    → Dict (Dict ℤ)
    → Dict (Dict ℤ)
unfolding bump_source
bump_all_sources src ccy delta [] result = result
bump_all_sources src ccy delta (r ∷ rest) result =
    bump_all_sources src ccy delta rest (bump_source (src r) (ccy r) (delta r) result)

unfoldable pub net_cash_by_source_and_currency : Database → Dict (Dict ℤ)
unfolding bump_all_sources select_trades is_positive
net_cash_by_source_and_currency db =
    bump_all_sources (λ (r : Dividend). r.external_source) (λ r. r.currency) dividend_delta
      db.dividends
      (bump_all_sources (λ (r : TradeRow). r.source) (λ r. r.currency) trade_delta
        (select_trades db db.transactions)
        (bump_all_sources (λ (r : CashTx). r.external_source) (λ r. r.currency) cash_delta
          db.cash_txs []))
