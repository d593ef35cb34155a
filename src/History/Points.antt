-- ===== src/History/Points.antt =====
-- `_price_at`, `_compute_history_points` and `get_history` of
-- backend/app/services/portfolio_history.py. Two dictionaries that are written together are one
-- dictionary of pairs. A cost and a value are in 10^-16 of a currency, and in 10^-24 after the FX
-- rate. What a sale takes from a cost, `sold * (cur_cost / cur_qty)` in Python's decimal context of
-- 28 digits, is a parameter.
use assetlog.Prelude.{
  ℕ, suc, zero, ◌+◌, ◌-◌, ◌*◌, String, Bool, true, false, Option, none, some, List, [], ◌∷◌, map,
  drop, get_elem?, ltb, leb, ◌==ₛ◌, if◌then◌else◌,
}
use assetlog.Prelude.Int.{ℤ, pos, ◌+ℤ◌, ◌-ℤ◌, ◌*ℤ◌}
use assetlog.Prelude.Dict.{Dict, lookup, insert}
use assetlog.Prelude.Keyed.{Keyed, at_key, at_key_or, set_key}
use assetlog.Db.{Database, is_buy}
use assetlog.Fx.Service.{FxStore, get_historical_rates_at, one}
use assetlog.History.Rows.{
  AllTxRow, PricePoint, Price, list_all_transactions, list_price_points_for_symbols,
}
use assetlog.History.Buckets.{
  HistoryPeriod, period_bucket, bucket_to_timedelta, compute_start_dt, generate_bucket_timestamps,
}

-- `qty_by_symbol` and `running_cost_by_symbol`, at one symbol.
pub record Holding : Type 0 where
  pub qty : ℕ
  pub cost : ℤ

abbrev pub nothing_held : Holding
nothing_held = record { qty = 0; cost = pos 0 }

-- The pointer counts the entries up to the last that it has passed: it is the source's pointer and 1.
unfoldable pub advance : ℕ → List Price → ℕ → ℕ
advance ts [] ptr = ptr
advance ts (p ∷ pts) ptr = let on = advance ts pts (suc ptr) in if leb p.at ts then on else ptr

abbrev pub before : List Price → ℕ → Option Price
before pts zero = none
before pts (suc n) = get_elem? pts n

abbrev pub is_empty : List Price → Bool
is_empty [] = true
is_empty (p ∷ pts) = false

unfoldable pub price_at : ℕ → ℕ → Keyed (List Price) → Keyed ℕ → Option Price × Keyed ℕ
unfolding advance at_key_or set_key
price_at sym_id ts price_index pointer =
    let pts = at_key_or sym_id [] price_index in
    let old = at_key_or sym_id 0 pointer in
    let ptr = advance ts (drop old pts) old in
    if is_empty pts then (none, pointer) else (before pts ptr, set_key sym_id ptr pointer)

-- `_convert`: with its rate, a value of the target currency keeps its amount.
unfoldable pub convert_value : String → Dict (Keyed (Option ℤ)) → ℤ → String → ℕ → Option ℤ
unfolding lookup at_key ◌*ℤ◌
convert_value target_currency fx_index value src_ccy ts =
    if src_ccy ==ₛ target_currency then some (value *ℤ one) else elim (lookup src_ccy fx_index) [
      | none ↦ none
      | some rates ↦ elim (at_key ts rates) [
        | none ↦ none
        | some none ↦ none
        | some (some rate) ↦ some (value *ℤ rate)
      ]
    ]

abbrev pub or_zero : Option ℤ → ℤ
or_zero none = pos 0
or_zero (some v) = v

module _ (flushed : ℤ → ℕ → ℕ → ℤ) where
  -- One transaction, on the holding of its symbol.
  unfoldable pub apply_tx : AllTxRow → Keyed Holding → Keyed Holding
  unfolding at_key_or set_key ◌+ℤ◌ ◌-ℤ◌
  apply_tx tx held =
      let cur = at_key_or tx.symbol_id nothing_held held in
      let sold = if leb tx.quantity cur.qty then tx.quantity else cur.qty in
      if is_buy tx.tx_type
      then set_key tx.symbol_id
          (record { qty = cur.qty + tx.quantity; cost = cur.cost +ℤ pos (tx.quantity * tx.price) })
          held
      else if ltb 0 cur.qty
      then set_key tx.symbol_id
          (record { qty = cur.qty - sold; cost = cur.cost -ℤ flushed cur.cost cur.qty sold }) held
      else held

  -- The inner loop: what the transactions up to `ts` make of the holdings, and those that are left.
  unfoldable pub apply_until : ℕ → List AllTxRow → Keyed Holding → Keyed Holding × List AllTxRow
  unfolding apply_tx
  apply_until ts [] held = (held, [])
  apply_until ts (tx ∷ txs) held =
      let on = apply_until ts txs (apply_tx tx held) in
      if ltb ts tx.traded_at then (held, tx ∷ txs) else on

-- No cost where nothing is held.
abbrev pub guard_residuals : Keyed Holding → Keyed Holding
guard_residuals held = map (λ (sym_id, h). (sym_id, if leb h.qty 0 then nothing_held else h)) held

pub record HistoryPoint : Type 0 where
  pub timestamp : ℕ
  pub value : ℤ
  pub cost_basis : ℤ

module _ (price_index : Keyed (List Price)) (target_currency : String)
    (symbol_currency : Keyed String) (fx_index : Dict (Keyed (Option ℤ))) where
  abbrev pub converted : ℕ → ℕ → ℤ → ℤ
  converted ts sym_id native = or_zero (
      convert_value target_currency fx_index native
        (at_key_or sym_id target_currency symbol_currency) ts)

  unfoldable pub cost_at : ℕ → Keyed Holding → ℤ
  unfolding convert_value at_key_or ◌+ℤ◌
  cost_at ts [] = pos 0
  cost_at ts ((sym_id, h) ∷ held) =
      let rest = cost_at ts held in if leb h.qty 0 then rest else converted ts sym_id h.cost +ℤ rest

  abbrev pub worth : ℕ → ℕ → ℕ → Option Price → ℤ
  worth ts sym_id qty none = pos 0
  worth ts sym_id qty (some p) = converted ts sym_id (pos (qty * p.price))

  -- The value of one holding, and the pointers after it.
  unfoldable pub value_of : ℕ → ℕ → ℕ → Keyed ℕ → ℤ × Keyed ℕ
  unfolding price_at convert_value at_key_or
  value_of ts sym_id qty pointer =
      let (price, pointer') = price_at sym_id ts price_index pointer in
      if leb qty 0 then (pos 0, pointer) else (worth ts sym_id qty price, pointer')

  unfoldable pub value_at : ℕ → Keyed Holding → Keyed ℕ → ℤ × Keyed ℕ
  unfolding value_of ◌+ℤ◌
  value_at ts [] pointer = (pos 0, pointer)
  value_at ts ((sym_id, h) ∷ held) pointer =
      let (value, pointer') = value_of ts sym_id h.qty pointer in
      let (rest, last) = value_at ts held pointer' in (value +ℤ rest, last)

  -- The loop over the buckets.
  unfoldable pub compute_history_points :
      (ℤ → ℕ → ℕ → ℤ) → List ℕ → List AllTxRow → Keyed Holding → Keyed ℕ → List HistoryPoint
  unfolding apply_until cost_at value_at
  compute_history_points flushed [] txs held pointer = []
  compute_history_points flushed (ts ∷ timestamps) txs held pointer =
      let (traded, left) = apply_until flushed ts txs held in
      let kept = guard_residuals traded in
      let (value, pointer') = value_at ts kept pointer in
      record { timestamp = ts; value = value; cost_basis = cost_at ts kept }
      ∷ compute_history_points flushed timestamps left kept pointer'

-- `{row.symbol_id: row.currency for row in all_rows}`
unfoldable pub currencies_of : List AllTxRow → Keyed String → Keyed String
unfolding set_key
currencies_of [] d = d
currencies_of (row ∷ rows) d = currencies_of rows (set_key row.symbol_id row.currency d)

-- The rates of each source currency other than the target.
unfoldable pub fx_index_of : String → List ℕ → List AllTxRow → FxStore → Dict (Keyed (Option ℤ))
unfolding get_historical_rates_at insert
fx_index_of target timestamps [] fx = []
fx_index_of target timestamps (row ∷ rows) fx =
    let rest = fx_index_of target timestamps rows fx in
    if row.currency ==ₛ target
    then rest
    else insert row.currency (get_historical_rates_at row.currency target timestamps fx) rest

-- The timestamps of the points.
abbrev pub buckets_of : HistoryPeriod → ℕ → AllTxRow → List AllTxRow → List ℕ
buckets_of period end_dt tx rest =
    generate_bucket_timestamps (compute_start_dt period end_dt tx rest) end_dt
      (bucket_to_timedelta (period_bucket period))

abbrev pub ids_of : List AllTxRow → List ℕ
ids_of rows = map (λ (row : AllTxRow). row.symbol_id) rows

-- The points of all the transactions: `target` is the currency in capitals.
abbrev pub points_of :
    (ℤ → ℕ → ℕ → ℤ)
    → HistoryPeriod
    → String
    → ℕ
    → List PricePoint
    → FxStore
    → List AllTxRow
    → List HistoryPoint
points_of flushed period target end_dt points fx [] = []
points_of flushed period target end_dt points fx (tx ∷ rest) =
    let timestamps = buckets_of period end_dt tx rest in
    let since = compute_start_dt period end_dt tx rest in
    compute_history_points (list_price_points_for_symbols (ids_of (tx ∷ rest)) since points) target
      (currencies_of (tx ∷ rest) []) (fx_index_of target timestamps (tx ∷ rest) fx) flushed
      timestamps (tx ∷ rest) [] []

unfoldable pub get_history :
    (ℤ → ℕ → ℕ → ℤ)
    → HistoryPeriod
    → String
    → ℕ
    → List PricePoint
    → FxStore
    → Database
    → List HistoryPoint
unfolding list_all_transactions generate_bucket_timestamps compute_start_dt bucket_to_timedelta
    period_bucket list_price_points_for_symbols currencies_of fx_index_of compute_history_points
get_history flushed period target end_dt points fx db =
    points_of flushed period target end_dt points fx (list_all_transactions db)
