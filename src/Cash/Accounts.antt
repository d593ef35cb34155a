-- ===== src/Cash/Accounts.antt =====
-- backend/app/services/cash_account.py and backend/app/repositories/cash_account.py, over the table
-- of cash accounts. A method that raises NotFoundError gives none. Log lines are left out, and so is
-- `updated_at`; a new account has the time of its creation.
use assetlog.Prelude.{
  ℕ, suc, String, Bool, true, false, Option, none, some, List, [], ◌∷◌, ◌++◌, filter, find, ltb,
  leb, ◌==◌, if◌then◌else◌,
}
use assetlog.Prelude.Int.{ℤ}
use assetlog.Prelude.Dict.{Dict, bump}
use assetlog.Prelude.Sorting.{sort}
use assetlog.Prelude.Table.{set_row, drop_row}
use assetlog.Db.{
  Database, CashTx, CashTxKind, deposit, withdraw, interest, interest_tax, transfer_in,
  transfer_out,
}

-- models/cash_account.py
pub record CashAccount : Type 0 where
  pub id : ℕ
  pub label : String
  pub currency : String
  pub balance : ℤ
  pub interest_rate_annual : Option ℤ
  pub created_at : ℕ

pub record CashStore : Type 0 where
  pub accounts : List CashAccount
  pub next_account : ℕ

-- schemas/cash_account.py
pub record CashAccountCreate : Type 0 where
  pub label : String
  pub currency : String
  pub balance : ℤ
  pub interest_rate_annual : Option ℤ

pub record CashAccountUpdate : Type 0 where
  pub label : Option String
  pub balance : Option ℤ
  pub interest_rate_annual : Option ℤ

abbrev pub account_id : CashAccount → ℕ
account_id a = a.id

abbrev newest_account : CashAccount → CashAccount → Bool
newest_account a b = leb b.created_at a.created_at

unfoldable pub list_accounts : CashStore → List CashAccount
unfolding sort
list_accounts s = sort newest_account s.accounts

unfoldable pub get_account : ℕ → CashStore → Option CashAccount
unfolding find
get_account id s = find (λ (a : CashAccount). a.id == id) s.accounts

abbrev pub account_of : ℕ → ℕ → CashAccountCreate → CashAccount
account_of id now d = record {
  id = id;
  label = d.label;
  currency = d.currency;
  balance = d.balance;
  interest_rate_annual = d.interest_rate_annual;
  created_at = now;
}

unfoldable pub create_account : ℕ → CashAccountCreate → CashStore → CashAccount × CashStore
create_account now d s = (
  account_of s.next_account now d,
  record {
    accounts = s.accounts ++ account_of s.next_account now d ∷ [];
    next_account = suc s.next_account;
  },
)

abbrev pub or_old {ℓ} : {A : Type ℓ} → Option A → A → A
or_old none old = old
or_old (some new) old = new

abbrev pub or_old_rate : Option ℤ → Option ℤ → Option ℤ
or_old_rate none old = old
or_old_rate (some new) old = some new

-- The fields that the request sets.
abbrev pub changed : CashAccountUpdate → CashAccount → CashAccount
changed d a = record a {
  label = or_old d.label a.label;
  balance = or_old d.balance a.balance;
  interest_rate_annual = or_old_rate d.interest_rate_annual a.interest_rate_annual;
}

abbrev pub updated :
    CashAccountUpdate → Option CashAccount → CashStore → Option CashAccount × CashStore
updated d none s = (none, s)
updated d (some a) s =
    (some (changed d a), record s { accounts = set_row account_id a.id (changed d) s.accounts })

unfoldable pub update_account : ℕ → CashAccountUpdate → CashStore → Option CashAccount × CashStore
unfolding get_account
update_account id d s = updated d (get_account id s) s

abbrev pub deleted : Option CashAccount → CashStore → Bool × CashStore
deleted none s = (false, s)
deleted (some a) s = (true, record s { accounts = drop_row account_id a.id s.accounts })

-- False where NotFoundError is raised.
unfoldable pub delete_account : ℕ → CashStore → Bool × CashStore
unfolding get_account filter
delete_account id s = deleted (get_account id s) s

unfoldable pub add_balances : List CashAccount → Dict ℤ → Dict ℤ
unfolding bump
add_balances [] sums = sums
add_balances (a ∷ rows) sums = add_balances rows (bump a.currency a.balance sums)

unfoldable pub sum_balance_by_currency : CashStore → Dict ℤ
unfolding add_balances
sum_balance_by_currency s = add_balances s.accounts []

abbrev pub kind_code : CashTxKind → ℕ
kind_code deposit = 0
kind_code withdraw = 1
kind_code interest = 2
kind_code interest_tax = 3
kind_code transfer_in = 4
kind_code transfer_out = 5

abbrev pub kind_fits : Option CashTxKind → CashTx → Bool
kind_fits none tx = true
kind_fits (some kind) tx = kind_code tx.kind == kind_code kind

abbrev newest_tx : CashTx → CashTx → Bool
newest_tx a b = if a.traded_at == b.traded_at then leb b.id a.id else ltb b.traded_at a.traded_at

unfoldable pub list_transactions : Option CashTxKind → Database → List CashTx
unfolding sort filter
list_transactions kind db = sort newest_tx (filter (kind_fits kind) db.cash_txs)
