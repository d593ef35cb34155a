-- ===== src/Performance/Flows.antt =====
-- `extract_cashflows` of backend/app/services/performance.py and the types of
-- backend/app/domain/performance.py. A conversion is none where it raises FxRateNotAvailableError,
-- and so is the list of cash flows. Amounts are in 10^-24 of the report's currency.
use assetlog.Prelude.{
  ℕ, ◌*◌, String, Bool, Option, none, some, List, [], ◌∷◌, map, ltb, leb, ◌||◌, ◌&&◌, if◌then◌else◌,
}
use assetlog.Prelude.Int.{ℤ, pos, ◌+ℤ◌, ◌-ℤ◌, ltb_ℤ}
use assetlog.Prelude.Keyed.{Keyed, at_key_or, set_key}
use assetlog.Prelude.Sorting.{sort}
use assetlog.Db.{TransactionType, is_buy}
use assetlog.History.Rows.{AllTxRow}

pub record Cashflow : Type 0 where
  pub date : ℕ
  pub amount : ℤ
  pub kind : String

-- `fx_at(amount, from_cur, to_cur, at)`
abbrev pub FxAt : Type 0
FxAt = ℤ → String → String → ℕ → Option ℤ

abbrev pub signed : TransactionType → ℤ → ℤ
signed type converted = if is_buy type then pos 0 -ℤ converted else converted

abbrev pub in_window : ℕ → ℕ → AllTxRow → Bool
in_window window_start window_end tx = leb window_start tx.traded_at && leb tx.traded_at window_end

abbrev pub gross : AllTxRow → ℤ
gross tx = pos (tx.quantity * tx.price)

module _ (report_currency : String) (fx_at : FxAt) (window_start window_end : ℕ) where
  -- The loop over the transactions, which adds to `by_ts`.
  unfoldable pub flows_by_time : List AllTxRow → Keyed ℤ → Option (Keyed ℤ)
  unfolding at_key_or set_key ◌+ℤ◌ ◌-ℤ◌
  flows_by_time [] by_ts = some by_ts
  flows_by_time (tx ∷ txs) by_ts =
      let skipped = flows_by_time txs by_ts in
      if ltb tx.traded_at window_start || ltb window_end tx.traded_at
      then skipped
      else elim (fx_at (gross tx) tx.currency report_currency tx.traded_at) [
        | none ↦ none
        | some converted ↦ flows_by_time txs (
            set_key tx.traded_at
              (at_key_or tx.traded_at (pos 0) by_ts +ℤ signed tx.tx_type converted) by_ts)
      ]

abbrev pub flow_of : ℕ × ℤ → Cashflow
flow_of (ts, total) = record {
  date = ts;
  amount = total;
  kind = if ltb_ℤ total (pos 0) then "buy" else "sell";
}

abbrev pub by_first : ℕ × ℤ → ℕ × ℤ → Bool
by_first a b = leb a.0 b.0

abbrev pub flows_of : Option (Keyed ℤ) → Option (List Cashflow)
flows_of none = none
flows_of (some by_ts) = some (map flow_of (sort by_first by_ts))

unfoldable pub extract_cashflows : List AllTxRow → String → FxAt → ℕ → ℕ → Option (List Cashflow)
unfolding flows_by_time sort
extract_cashflows txs report_currency fx_at window_start window_end =
    flows_of (flows_by_time report_currency fx_at window_start window_end txs [])
