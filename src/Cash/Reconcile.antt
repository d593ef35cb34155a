-- ===== src/Cash/Reconcile.antt =====
-- `ExchangeSyncService.reconcile_cash_balance` of backend/app/services/exchange_sync.py. The money is
-- in units of 10^-16, as in `Cash.Rows`. The source's LIKE pattern is taken as a plain prefix: the
-- one source that is reconciled, "upbit", has no wildcard in it.
use Prim.Native.String.{◌++◌ as ◌++ₛ◌}
use assetlog.Prelude.{
  is_text, ℕ, suc, ◌+◌, ◌*◌, ◌/◌, ◌%◌, String, Bool, false, not, ◌&&◌, Option, none, some, [], ◌∷◌,
  ◌++◌, find, starts_with, ltb, ◌==◌, ◌==ₛ◌, if◌then◌else◌,
}
use assetlog.Prelude.Int.{ℤ, pos, pos_part, neg_part, ◌+ℤ◌, ◌-ℤ◌, ◌*ℤ◌, ltb_ℤ}
use assetlog.Prelude.Sums.{sum_of}
use assetlog.Prelude.Table.{set_row, drop_row}
use assetlog.Db.{
  Database, CashTx, CashTxKind, transfer_in, transfer_out, Transaction, Dividend, is_buy, Action,
  ok,
}
use assetlog.Cash.Rows.{of_amount, is_positive, quote_in, quote_currency}

-- `column != text`, which is not true of NULL.
abbrev pub is_other_text : Option String → String → Bool
is_other_text none t = false
is_other_text (some s) t = not (s ==ₛ t)

abbrev pub has_no_prefix : Option String → String → Bool
has_no_prefix none t = false
has_no_prefix (some s) t = not (starts_with s t)

abbrev pub reconcile_id : String → String
reconcile_id source = source ++ₛ ":cash:reconcile"

module _ (source currency : String) where
  abbrev pub organic_cash : CashTx → ℤ
  organic_cash r =
      if is_text r.external_source source
        && (r.currency ==ₛ currency && is_other_text r.external_id (reconcile_id source))
      then (if is_positive r.kind then of_amount r.amount else pos 0 -ℤ of_amount r.amount)
      else pos 0

  abbrev pub organic_trade : Database → Transaction → ℤ
  organic_trade db tx =
      if is_text tx.external_source source
        && (is_text (quote_currency db tx) currency
            && has_no_prefix tx.external_id (source ++ₛ ":adjust:"))
      then (if is_buy tx.type then pos 0 -ℤ tx.quantity *ℤ tx.price else tx.quantity *ℤ tx.price)
      else pos 0

  abbrev pub organic_dividend : Dividend → ℤ
  organic_dividend d =
      if is_text d.external_source source && d.currency ==ₛ currency
      then of_amount d.amount
      else pos 0

  -- `net`: the flow that the database has without the reconcile row.
  unfoldable pub organic_net : Database → ℤ
  unfolding sum_of is_positive quote_in
  organic_net db =
      sum_of organic_cash db.cash_txs
      +ℤ sum_of (organic_trade db) db.transactions
      +ℤ sum_of organic_dividend db.dividends

-- n / q to the nearest, a tie to the even number: ROUND_HALF_EVEN of a magnitude.
unfoldable pub round_half_even : ℕ → ℕ → ℕ
round_half_even n q =
    let k = n / q in
    let r = n % q in
    if ltb q (2 * r) then k + 1 else if 2 * r == q then (if k % 2 == 0 then k else k + 1) else k

-- The step of `quantize`, in units of 10^-16, and its worth in the units of an amount.
abbrev pub quantum : String → ℕ
quantum currency = if currency ==ₛ "KRW" then 10_000_000_000_000_000 else 100_000_000

abbrev pub quantum_amount : String → ℕ
quantum_amount currency = if currency ==ₛ "KRW" then 100_000_000 else 1

-- `delta.quantize(quantum)` as an amount.
unfoldable pub quantized : String → ℤ → ℤ
unfolding round_half_even
quantized currency delta =
    pos (round_half_even (pos_part delta) (quantum currency) * quantum_amount currency)
    -ℤ pos (round_half_even (neg_part delta) (quantum currency) * quantum_amount currency)

abbrev pub kind_of : ℤ → CashTxKind
kind_of delta_q = if ltb_ℤ (pos 0) delta_q then transfer_in else transfer_out

-- `abs`
abbrev pub magnitude : ℤ → ℤ
magnitude a = pos (pos_part a + neg_part a)

abbrev pub is_zero : ℤ → Bool
is_zero a = pos_part a + neg_part a == 0

module _ (source : String) where
  abbrev pub is_reconcile_row : CashTx → Bool
  is_reconcile_row r =
      is_text r.external_source source && is_text r.external_id (reconcile_id source)

  abbrev pub new_row : ℕ → String → ℤ → ℕ → CashTx
  new_row id currency delta_q traded_at = record {
    id = id;
    kind = kind_of delta_q;
    amount = magnitude delta_q;
    withholding_tax = pos 0;
    currency = currency;
    traded_at = traded_at;
    external_source = some source;
    external_id = some (reconcile_id source);
  }

  abbrev pub repinned : String → ℤ → ℕ → CashTx → CashTx
  repinned currency delta_q traded_at r = record r {
    kind = kind_of delta_q;
    amount = magnitude delta_q;
    currency = currency;
    traded_at = traded_at;
  }

  -- From the quantized delta on: drop, insert or change the reconcile row.
  unfoldable pub pin : String → ℤ → ℕ → Database → Database
  pin currency delta_q traded_at db = elim (find is_reconcile_row db.cash_txs) [
    | none ↦ if is_zero delta_q then db else record db {
      cash_txs = db.cash_txs ++ new_row db.next_cash_tx currency delta_q traded_at ∷ [];
      next_cash_tx = suc db.next_cash_tx;
    }
    | some r ↦
        if is_zero delta_q
        then record db { cash_txs = drop_row (λ (c : CashTx). c.id) r.id db.cash_txs }
        else record db {
          cash_txs =
              set_row (λ (c : CashTx). c.id) r.id (repinned currency delta_q traded_at) db.cash_txs;
        }
  ]

  unfoldable pub reconcile_cash_balance : String → ℤ → ℕ → Action ℤ
  unfolding organic_net quantized pin
  reconcile_cash_balance currency target_balance traded_at db =
      let delta_q = quantized currency (target_balance -ℤ organic_net source currency db) in
      (ok delta_q, pin currency delta_q traded_at db)
