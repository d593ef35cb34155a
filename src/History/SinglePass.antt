-- ===== src/History/SinglePass.antt =====
-- `get_history` against a computation of each bucket by itself.
use assetlog.Prelude.{
  ℕ, ◌≤◌, ◌≡◌, refl, String, Option, none, some, List, [], ◌∷◌, All, map, arith, ◌==◌, inl, inr,
  Bool-cases,
}
use assetlog.Prelude.Int.{ℤ}
use assetlog.Prelude.Sorting.{Ascending, Respects, sort, sort-Ascending, sort_by-Ascending}
use assetlog.Prelude.Keyed.{Keyed, at_key_or}
use assetlog.Db.{Database, Transaction, AssetSymbol}
use assetlog.Fx.Service.{FxStore}
use assetlog.History.Rows.{
  AllTxRow, PricePoint, Price, in_order, symbol_of, with_symbol, joined, list_all_transactions,
  sorted_lists, list_price_points_for_symbols,
}
use assetlog.History.Buckets.{HistoryPeriod, compute_start_dt, period_bucket}
use assetlog.History.Points.{get_history, points_of, buckets_of, ids_of, currencies_of, fx_index_of}
use assetlog.History.Timestamps.{timestamps-Ascending}
use assetlog.History.Pointer.{prices, Fits, Fits-start, when}
use assetlog.History.Quantities.{traded}
use assetlog.History.Values.{stamped, bucket_value, single_pass}

abbrev traded_at : Transaction → ℕ
traded_at tx = tx.traded_at

in_order-Respects : Respects traded_at in_order
in_order-Respects a b = elim (Bool-cases (in_order a b)) [
  | inl e ↦ rw e (ground (arith, e))
  | inr e ↦ rw e (ground (arith, e))
]

with_symbol-All :
    (n : ℕ) (tx : Transaction) (symbol : Option AssetSymbol) (rows : List AllTxRow)
    → n ≤ traded_at tx
    → All (λ row. n ≤ traded row) rows
    → All (λ row. n ≤ traded row) (with_symbol tx symbol rows)
with_symbol-All n tx none rows first h = h
with_symbol-All n tx (some symbol) rows first h = (first, h)

with_symbol-Ascending :
    (tx : Transaction) (symbol : Option AssetSymbol) (rows : List AllTxRow)
    → All (λ row. traded_at tx ≤ traded row) rows
    → Ascending traded rows
    → Ascending traded (with_symbol tx symbol rows)
with_symbol-Ascending tx none rows first h = h
with_symbol-Ascending tx (some symbol) rows first h = (first, h)

module _ (db : Database) where
  joined-All :
      (n : ℕ) (txs : List Transaction)
      → All (λ tx. n ≤ traded_at tx) txs
      → All (λ row. n ≤ traded row) (joined db txs)
  joined-All n [] h = tt
  joined-All n (tx ∷ txs) h =
      with_symbol-All n tx (symbol_of db tx) (joined db txs) h.0 (joined-All n txs h.1)

  joined-Ascending :
      (txs : List Transaction) → Ascending traded_at txs → Ascending traded (joined db txs)
  joined-Ascending [] h = tt
  joined-Ascending (tx ∷ txs) h =
      with_symbol-Ascending tx (symbol_of db tx) (joined db txs) (joined-All tx.traded_at txs h.0)
        (joined-Ascending txs h.1)

  list_all_transactions-Ascending : Ascending traded (list_all_transactions db)
  unfolding list_all_transactions
  list_all_transactions-Ascending =
      joined-Ascending (sort in_order db.transactions)
        (sort-Ascending traded_at in_order db.transactions in_order-Respects)

sorted_lists-Ascending :
    (sym_id : ℕ) (d : Keyed (List Price)) → Ascending when (prices (sorted_lists d) sym_id)
unfolding at_key_or
sorted_lists-Ascending sym_id [] = tt
sorted_lists-Ascending sym_id ((k, pts) ∷ d) = elim (Bool-cases (k == sym_id)) [
  | inl here ↦ rw here (sort_by-Ascending when pts)
  | inr there ↦ rw there (sorted_lists-Ascending sym_id d)
]

prices-Ascending :
    (ids : List ℕ) (since : ℕ) (points : List PricePoint) (sym_id : ℕ)
    → Ascending when (prices (list_price_points_for_symbols ids since points) sym_id)
unfolding list_price_points_for_symbols at_key_or
prices-Ascending [] since points sym_id = tt
prices-Ascending (id ∷ ids) since points sym_id = sorted_lists-Ascending sym_id _

start-Fits :
    (index : Keyed (List Price)) (timestamps : List ℕ) → All (λ t. Fits index t []) timestamps
start-Fits index [] = tt
start-Fits index (t ∷ timestamps) = (Fits-start index t, start-Fits index timestamps)

-- The history of a list of rows, each bucket from all the rows up to it and from its symbols' whole
-- lists of prices.
abbrev pub each_bucket :
    HistoryPeriod → String → ℕ → List PricePoint → FxStore → List AllTxRow → List (ℕ × ℤ)
each_bucket period target end_dt points fx [] = []
each_bucket period target end_dt points fx (tx ∷ rest) =
    let txs = tx ∷ rest in
    let timestamps = buckets_of period end_dt tx rest in
    let since = compute_start_dt period end_dt tx rest in
    map
      (bucket_value (list_price_points_for_symbols (ids_of txs) since points) target
        (currencies_of txs []) (fx_index_of target timestamps txs fx) txs [])
      timestamps

points_of_each :
    (flushed : ℤ → ℕ → ℕ → ℤ) (period : HistoryPeriod) (target : String) (end_dt : ℕ)
    (points : List PricePoint) (fx : FxStore) (txs : List AllTxRow)
    → Ascending traded txs
    → map stamped (points_of flushed period target end_dt points fx txs)
      ≡ each_bucket period target end_dt points fx txs
points_of_each flushed period target end_dt points fx [] up = refl
points_of_each flushed period target end_dt points fx (tx ∷ rest) up =
    let txs = tx ∷ rest in
    let timestamps = buckets_of period end_dt tx rest in
    let start = compute_start_dt period end_dt tx rest in
    let index = list_price_points_for_symbols (ids_of txs) start points in
    single_pass index target (currencies_of txs []) (fx_index_of target timestamps txs fx) flushed
      timestamps txs [] [] (prices-Ascending (ids_of txs) start points)
      (timestamps-Ascending (period_bucket period) start end_dt) up (start-Fits index timestamps)

-- The timestamps and values of `get_history`, which makes one pass over the transactions and over
-- each list of prices, are those of a computation of each bucket by itself: from all the
-- transactions up to the bucket's time, and from the last price of each symbol up to then. They do
-- not depend on how costs are rounded.
pub get_history-each_bucket :
    (flushed : ℤ → ℕ → ℕ → ℤ) (period : HistoryPeriod) (target : String) (end_dt : ℕ)
    (points : List PricePoint) (fx : FxStore) (db : Database)
    → map stamped (get_history flushed period target end_dt points fx db)
      ≡ each_bucket period target end_dt points fx (list_all_transactions db)
unfolding get_history
get_history-each_bucket flushed period target end_dt points fx db =
    points_of_each flushed period target end_dt points fx (list_all_transactions db)
      (list_all_transactions-Ascending db)
