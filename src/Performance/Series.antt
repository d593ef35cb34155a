-- ===== src/Performance/Series.antt =====
-- `build_value_series` of backend/app/services/performance.py, with the forward pointers of
-- History. A value is in 10^-24 of the report's currency.
use assetlog.Prelude.{ℕ, ◌+◌, ◌-◌, String, Option, none, some, List, [], ◌∷◌, leb, if◌then◌else◌}
use assetlog.Prelude.Int.{ℤ, pos, ◌+ℤ◌, ◌*ℤ◌}
use assetlog.Prelude.Keyed.{Keyed, at_key_or, set_key}
use assetlog.Prelude.Sorting.{sort, by_key}
use assetlog.Db.{is_buy}
use assetlog.History.Rows.{AllTxRow, Price}
use assetlog.History.Points.{price_at}
use assetlog.History.Quantities.{traded}
use assetlog.Performance.Flows.{FxAt}
use assetlog.Performance.Until.{step_until}

pub record ValuePoint : Type 0 where
  pub timestamp : ℕ
  pub value : ℤ

-- A sale of more than there is leaves nothing.
unfoldable pub trade : AllTxRow → Keyed ℕ → Keyed ℕ
unfolding at_key_or set_key
trade tx qty_by_symbol =
    let n = at_key_or tx.symbol_id 0 qty_by_symbol in
    set_key tx.symbol_id (if is_buy tx.tx_type then n + tx.quantity else n - tx.quantity)
      qty_by_symbol

module _ (price_index : Keyed (List Price)) (symbol_currency : Keyed String) (fx_at : FxAt)
    (report_currency : String) where
  -- What one symbol adds: nothing without a price, or where the conversion raises.
  abbrev pub at_price : ℕ → ℕ → ℕ → Option Price → ℤ
  at_price ts sym_id qty none = pos 0
  at_price ts sym_id qty (some p) =
      elim (fx_at (pos p.price) (at_key_or sym_id report_currency symbol_currency) report_currency
        ts) [ none ↦ pos 0 | some converted_price ↦ pos qty *ℤ converted_price ]

  unfoldable pub worth_of : ℕ → ℕ → ℕ → Keyed ℕ → ℤ × Keyed ℕ
  unfolding price_at at_key_or ◌*ℤ◌
  worth_of ts sym_id qty pointer =
      let (price, pointer') = price_at sym_id ts price_index pointer in
      if leb qty 0 then (pos 0, pointer) else (at_price ts sym_id qty price, pointer')

  unfoldable pub worth_then : ℕ → Keyed ℕ → Keyed ℕ → ℤ × Keyed ℕ
  unfolding worth_of ◌+ℤ◌
  worth_then ts [] pointer = (pos 0, pointer)
  worth_then ts ((sym_id, qty) ∷ shares) pointer =
      let (value, pointer') = worth_of ts sym_id qty pointer in
      let (rest, last) = worth_then ts shares pointer' in (value +ℤ rest, last)

  -- The loop over the timestamps.
  unfoldable pub value_points : List ℕ → List AllTxRow → Keyed ℕ → Keyed ℕ → List ValuePoint
  unfolding step_until trade worth_then
  value_points [] txs shares pointer = []
  value_points (ts ∷ timestamps) txs shares pointer =
      let (held, left) = step_until trade ts txs shares in
      let (value, pointer') = worth_then ts held pointer in
      record { timestamp = ts; value = value } ∷ value_points timestamps left held pointer'

unfoldable pub build_value_series :
    List AllTxRow → Keyed (List Price) → Keyed String → FxAt → String → List ℕ → List ValuePoint
unfolding value_points sort
build_value_series txs price_index symbol_currency fx_at report_currency timestamps =
    value_points price_index symbol_currency fx_at report_currency timestamps
      (sort (by_key traded) txs) [] []
