-- ===== src/Cash/Tests.antt =====
-- Tests of the cash balances, and each property at an input.
use assetlog.Cash.Accounts.{CashAccountCreate, CashStore, account_of, get_account}
use assetlog.Cash.AccountMap.{Request, Accounts, Shows, handle_all, spec_all, handle_all-Shows}
use assetlog.Prelude.{ℕ, ◌+◌, ◌*◌, ◌≤◌, ◌≡◌, refl, none, some, [], ◌∷◌, List, find}
use assetlog.Prelude.Int.{pos, pos_part, neg_part, ◌+ℤ◌, ◌-ℤ◌, ◌*ℤ◌}
use assetlog.Prelude.Sums.{sum_of}
use assetlog.Prelude.Dict.{lookup, get_or}
use assetlog.Db.{Database, CashTx, deposit, crypto, buy, empty_database, ok}
use assetlog.Trades.{TransactionData, add, of_data}
use assetlog.Cash.Flow.{net_cash_by_currency, net_cash_by_source_and_currency}
use assetlog.Cash.Sources.{sum_sources, sources-add_up}
use assetlog.Cash.Manual.{net_cash-add}
use assetlog.Cash.Rows.{of_amount}
use assetlog.Cash.Reconcile.{quantum, organic_net, reconcile_cash_balance}
use assetlog.Cash.OneRow.{pinned, IsPinned}
use assetlog.Cash.Pinned.{reconcile_cash_balance-lands}

abbrev bought_2 : TransactionData
bought_2 = record {
  type = buy;
  quantity = pos 2;
  price = pos 3;
  traded_at = 10;
  memo = none;
  tag = none;
}

abbrev deposit_1 : CashTx
deposit_1 = record {
  id = 1;
  kind = deposit;
  amount = pos 5;
  withholding_tax = pos 1;
  currency = "KRW";
  traded_at = 4;
  external_source = some "upbit";
  external_id = some "upbit:deposit:1";
}

-- One deposit, and a BUY that came from the same source.
abbrev ledger : Database
ledger = record empty_database {
  user_assets = record { id = 7; asset_symbol_id = 1 } ∷ [];
  asset_symbols =
      record {
        id = 1;
        asset_type = crypto;
        symbol = "BTC";
        exchange = "UPBIT";
        name = "Bitcoin";
        currency = "KRW";
      }
      ∷ [];
  cash_txs = deposit_1 ∷ [];
  next_cash_tx = 2;
  transactions =
      record (of_data 1 7 bought_2) {
        external_source = some "upbit";
        external_id = some "upbit:order:1";
      }
      ∷ [];
  next_transaction = 2;
}

balance : get_or "KRW" (pos 0) (net_cash_by_currency ledger) ≡ pos 399_999_994
unfolding net_cash_by_currency get_or lookup find ◌-ℤ◌ ◌+ℤ◌ ◌*ℤ◌
balance = refl

sources-add_up_example :
    sum_sources "KRW" (net_cash_by_source_and_currency ledger)
    ≡ get_or "KRW" (pos 0) (net_cash_by_currency ledger)
sources-add_up_example = sources-add_up "KRW" ledger

net_cash-add_example :
    let after = (add 7 bought_2 ledger).1 in
    (net_cash_by_currency after ≡ net_cash_by_currency ledger)
    × (net_cash_by_source_and_currency after ≡ net_cash_by_source_and_currency ledger)
net_cash-add_example = net_cash-add 7 bought_2 ledger

reconcile_cash_balance-lands_example :
    let (r, after) = reconcile_cash_balance "upbit" "KRW" (pos 70_000_000_000_000_000) 50 ledger in
    let pin_sum = sum_of (pinned "upbit") after.cash_txs in
    let gap = pos 70_000_000_000_000_000 -ℤ organic_net "upbit" "KRW" after -ℤ of_amount pin_sum in
    (r ≡ ok pin_sum)
    × (organic_net "upbit" "KRW" after ≡ organic_net "upbit" "KRW" ledger)
    × (2 * (pos_part gap + neg_part gap) ≤ quantum "KRW")
    × IsPinned "upbit" "KRW" 50 pin_sum after.cash_txs
    × ((later : ℕ)
        → (reconcile_cash_balance "upbit" "KRW" (pos 70_000_000_000_000_000) later after).0 ≡ r)
reconcile_cash_balance-lands_example =
    reconcile_cash_balance-lands "upbit" "KRW" (pos 70_000_000_000_000_000) 50 ledger (tt, tt)
      (λ _. tt, tt)

abbrev savings : CashAccountCreate
savings = record {
  label = "Savings";
  currency = "KRW";
  balance = pos 500;
  interest_rate_annual = none;
}

abbrev no_accounts : CashStore
no_accounts = record { accounts = []; next_account = 1 }

abbrev no_map : Accounts
no_map = record { account = λ k. none; next = 1 }

-- Two accounts, the first emptied, the second deleted, and a third that takes a new id.
abbrev account_requests : List Request
account_requests =
    Request.creation 4 savings
    ∷ Request.creation 5 savings
    ∷ Request.change 1
        (record { label = none; balance = some (pos 0); interest_rate_annual = none })
    ∷ Request.removal 2
    ∷ Request.removal 9
    ∷ Request.creation 6 savings
    ∷ []

third_account :
    get_account 3 (handle_all account_requests no_accounts) ≡ some (account_of 3 6 savings)
unfolding get_account handle_all
third_account = refl

no_accounts-Shows : Shows no_accounts no_map
unfolding get_account
no_accounts-Shows = record { same = λ k. refl; next = refl; fresh = tt }

handle_all-Shows_example :
    Shows (handle_all account_requests no_accounts) (spec_all account_requests no_map)
handle_all-Shows_example = handle_all-Shows account_requests no_accounts no_map no_accounts-Shows
