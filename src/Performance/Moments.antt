-- ===== src/Performance/Moments.antt =====
-- The cash flow of each instant against the transactions of that instant.
use assetlog.Prelude.{
  ℕ, ◌≡◌, ◌≢◌, refl, sym, ◌∙◌, String, Bool, true, false, Option, none, some, List, [], ◌∷◌, map,
  ltb, leb, ◌||◌, ◌==◌, All, arith, inl, inr, Bool-cases, Option-cases, if◌then◌else◌, ◌&&◌, any,
  ◌<◌, ◌≤◌,
}
use assetlog.Prelude.Int.{ℤ, pos, ◌+ℤ◌, int_laws, zero-+ℤ}
use assetlog.Prelude.Sums.{sum_of, sum_of-map}
use assetlog.Prelude.Keyed.{Keyed, at_key_or, set_key}
use assetlog.Prelude.Sorting.{
  sort, sum_of-sort, insert_sorted, All-insert_sorted, All-sort, Ascending, sort_by-Ascending,
}
use assetlog.History.Rows.{AllTxRow}
use assetlog.History.Points.{or_zero}
use assetlog.Performance.Flows.{
  in_window, Cashflow, FxAt, signed, gross, flows_by_time, flow_of, flows_of, by_first,
  extract_cashflows,
}

abbrev pub amount_at : ℕ → Cashflow → ℤ
amount_at t cf = if cf.date == t then cf.amount else pos 0

-- No key comes twice.
abbrev pub UniqueTimes : Keyed ℤ → Type 0
UniqueTimes [] = Unit
UniqueTimes ((k, v) ∷ d) = All (λ (e : ℕ × ℤ). k ≢ e.0) d × UniqueTimes d

abbrev pub is_none : Option ℤ → Bool
is_none none = true
is_none (some v) = false

abbrev pub none_given : Option (List Cashflow) → Bool
none_given none = true
none_given (some flows) = false

abbrev entry_at : ℕ → ℕ × ℤ → ℤ
entry_at t e = if e.0 == t then e.1 else pos 0

-- A write at a key moves the sum at that key's time, whatever else is there.
entry_sum-set_key :
    (t k : ℕ) (v : ℤ) (d : Keyed ℤ)
    → sum_of (entry_at t) (set_key k (at_key_or k (pos 0) d +ℤ v) d)
      ≡ sum_of (entry_at t) d +ℤ (if k == t then v else pos 0)
unfolding sum_of set_key at_key_or
entry_sum-set_key t k v [] = grind int_laws
entry_sum-set_key t k v ((j, w) ∷ d) = grind (int_laws, entry_sum-set_key t k v d)

set_key-absent :
    (n k : ℕ) (v : ℤ) (d : Keyed ℤ)
    → n ≢ k
    → All (λ (e : ℕ × ℤ). n ≢ e.0) d
    → All (λ (e : ℕ × ℤ). n ≢ e.0) (set_key k v d)
unfolding set_key
set_key-absent n k v [] new h = (new, tt)
set_key-absent n k v ((j, w) ∷ d) new h = elim (Bool-cases (j == k)) [
  | inl e ↦ rw e h
  | inr e ↦ rw e (h.0, set_key-absent n k v d new h.1)
]

set_key-UniqueTimes : (k : ℕ) (v : ℤ) (d : Keyed ℤ) → UniqueTimes d → UniqueTimes (set_key k v d)
unfolding set_key
set_key-UniqueTimes k v [] h = (tt, tt)
set_key-UniqueTimes k v ((j, w) ∷ d) h = elim (Bool-cases (j == k)) [
  | inl e ↦ rw e h
  | inr e ↦
      let apart : j ≢ k = ground arith in
      rw e (set_key-absent j k v d apart h.0, set_key-UniqueTimes k v d h.1)
]

insert_sorted-UniqueTimes :
    (k : ℕ) (v : ℤ) (d : Keyed ℤ)
    → All (λ (e : ℕ × ℤ). k ≢ e.0) d
    → UniqueTimes d
    → UniqueTimes (insert_sorted by_first (k, v) d)
unfolding insert_sorted
insert_sorted-UniqueTimes k v [] new h = (tt, tt)
insert_sorted-UniqueTimes k v ((j, w) ∷ d) new h = elim (Bool-cases (leb k j)) [
  | inl first ↦ rw first (new, h)
  | inr later ↦ rw later (
    All-insert_sorted (λ (e : ℕ × ℤ). j ≢ e.0) by_first (k, v) d (λ e. new.0 (sym e)) h.0,
    insert_sorted-UniqueTimes k v d new.1 h.1,
  )
]

sort-UniqueTimes : (d : Keyed ℤ) → UniqueTimes d → UniqueTimes (sort by_first d)
unfolding sort
sort-UniqueTimes [] h = tt
sort-UniqueTimes ((k, v) ∷ d) h =
    insert_sorted-UniqueTimes k v (sort by_first d)
      (All-sort (λ (e : ℕ × ℤ). k ≢ e.0) by_first d h.0) (sort-UniqueTimes d h.1)

-- Strictly in the order of time.
abbrev pub InOrder : List Cashflow → Type 0
InOrder [] = Unit
InOrder (cf ∷ cfs) = All (λ (later : Cashflow). cf.date < later.date) cfs × InOrder cfs

strict_All :
    (k : ℕ) (d : Keyed ℤ)
    → All (λ (e : ℕ × ℤ). k ≤ e.0) d
    → All (λ (e : ℕ × ℤ). k ≢ e.0) d
    → All (λ (later : Cashflow). k < later.date) (map flow_of d)
strict_All k [] le ne = tt
strict_All k ((j, v) ∷ d) le ne = (ground (arith, le.0, ne.0), strict_All k d le.1 ne.1)

flows-InOrder :
    (d : Keyed ℤ) → Ascending (λ (e : ℕ × ℤ). e.0) d → UniqueTimes d → InOrder (map flow_of d)
flows-InOrder [] up h = tt
flows-InOrder ((k, v) ∷ d) up h = (strict_All k d up.0 h.0, flows-InOrder d up.1 h.1)

module _ (report_currency : String) (fx_at : FxAt) (ws we : ℕ) where
  abbrev converted : AllTxRow → Option ℤ
  converted tx = fx_at (gross tx) tx.currency report_currency tx.traded_at

  -- What a transaction moves at an instant.
  abbrev pub moved_at : ℕ → AllTxRow → ℤ
  moved_at t tx =
      if in_window ws we tx && tx.traded_at == t
      then signed tx.tx_type (or_zero (converted tx))
      else pos 0

  -- A transaction of the window that does not convert.
  abbrev pub unconverted : AllTxRow → Bool
  unconverted tx = in_window ws we tx && is_none (converted tx)

  abbrev Moved : List AllTxRow → Keyed ℤ → Option (Keyed ℤ) → Type 0
  Moved txs by_ts none = any unconverted txs ≡ true
  Moved txs by_ts (some d) =
      (any unconverted txs ≡ false)
      × ((t : ℕ) → sum_of (entry_at t) d ≡ sum_of (entry_at t) by_ts +ℤ sum_of (moved_at t) txs)
      × (UniqueTimes by_ts → UniqueTimes d)

  skipped :
      (tx : AllTxRow) (txs : List AllTxRow) (by_ts : Keyed ℤ) (r : Option (Keyed ℤ))
      → in_window ws we tx ≡ false
      → Moved txs by_ts r
      → Moved (tx ∷ txs) by_ts r
  unfolding sum_of
  skipped tx txs by_ts none out h = rw out h
  skipped tx txs by_ts (some d) out h = (rw out h.0, λ t. rw out (h.1 t ∙ grind int_laws), h.2)

  counted :
      (tx : AllTxRow) (txs : List AllTxRow) (by_ts : Keyed ℤ) (c : ℤ) (r : Option (Keyed ℤ))
      → in_window ws we tx ≡ true
      → converted tx ≡ some c
      → let k = tx.traded_at in
        Moved txs (set_key k (at_key_or k (pos 0) by_ts +ℤ signed tx.tx_type c) by_ts) r
        → Moved (tx ∷ txs) by_ts r
  unfolding sum_of
  counted tx txs by_ts c none here e h = rw (here, e) h
  counted tx txs by_ts c (some d) here e h = (
    rw (here, e) h.0,
    λ t.
        rw (here, e)
          (h.1 t
            ∙ rw (entry_sum-set_key t tx.traded_at (signed tx.tx_type c) by_ts) (omega int_laws)),
    λ u. h.2 (set_key-UniqueTimes tx.traded_at _ by_ts u),
  )

  flows_by_time_lem :
      (txs : List AllTxRow) (by_ts : Keyed ℤ)
      → Moved txs by_ts (flows_by_time report_currency fx_at ws we txs by_ts)
  unfolding flows_by_time sum_of
  flows_by_time_lem [] by_ts = (refl, λ t. omega int_laws, λ u. u)
  flows_by_time_lem (tx ∷ txs) by_ts =
      elim (Bool-cases (ltb tx.traded_at ws || ltb we tx.traded_at)) [
        | inl out ↦
            rw out (skipped tx txs by_ts _ (ground (arith, out)) (flows_by_time_lem txs by_ts))
        | inr within ↦
            let here : in_window ws we tx ≡ true = ground (arith, within) in
            elim (Option-cases (converted tx)) [
              | inl missing ↦ rw (within, missing) (rw (here, missing) refl)
              | inr (c, e) ↦
                  rw (within, e) (counted tx txs by_ts c _ here e (flows_by_time_lem txs _))
            ]
      ]

  -- How an extraction ends: it raises for a transaction of the window that does not convert, or the
  -- flows are strictly in the order of time and each instant's flow is the sum of its transactions.
  abbrev pub FlowsOf : List AllTxRow → Option (List Cashflow) → Type 0
  FlowsOf txs none = any unconverted txs ≡ true
  FlowsOf txs (some flows) =
      (any unconverted txs ≡ false)
      × ((t : ℕ) → sum_of (amount_at t) flows ≡ sum_of (moved_at t) txs)
      × InOrder flows

  flows_of_lem :
      (txs : List AllTxRow) (r : Option (Keyed ℤ)) → Moved txs [] r → FlowsOf txs (flows_of r)
  unfolding sum_of
  flows_of_lem txs none h = h
  flows_of_lem txs (some d) h = (
    h.0,
    λ t.
        sum_of-map (amount_at t) flow_of (sort by_first d)
        ∙ sum_of-sort (entry_at t) by_first d
        ∙ h.1 t
        ∙ zero-+ℤ (sum_of (moved_at t) txs),
    flows-InOrder (sort by_first d) (sort_by-Ascending (λ (e : ℕ × ℤ). e.0) d)
        (sort-UniqueTimes d (h.2 tt)),
  )

  -- `extract_cashflows` raises exactly if a transaction of the window has no rate. Otherwise its
  -- flows are strictly in the order of time, and at every instant they come to what the
  -- transactions of the window at that instant do, purchases negative and sales positive.
  pub extract_cashflows_lem :
      (txs : List AllTxRow) → FlowsOf txs (extract_cashflows txs report_currency fx_at ws we)
  unfolding extract_cashflows
  extract_cashflows_lem txs = flows_of_lem txs _ (flows_by_time_lem txs [])
