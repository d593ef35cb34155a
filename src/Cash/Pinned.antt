-- ===== src/Cash/Pinned.antt =====
-- What a reconciliation leaves: the organic flow as it was, and one row that makes up the difference.
use assetlog.Prelude.{
  text_same, ℕ, suc, ◌⊎◌, ◌≢◌, String, ◌≡◌, refl, sym, ap, ◌∙◌, true, false, none, some, List, [],
  ◌∷◌, ◌++◌, find, arith, ◌≤◌, ◌*◌, ◌+◌, inl, inr, Bool-cases, Option-cases,
}
use assetlog.Prelude.Int.{
  ℤ, pos, pos_part, neg_part, ◌+ℤ◌, ◌-ℤ◌, int_laws, zero-+ℤ, +ℤ_comm, taken_out, put_for, kept_but,
}
use assetlog.Prelude.Sums.{sum_of, sum_of-append}
use assetlog.Prelude.Table.{
  DistinctIds, set_row, drop_row, sum_of-set_row, sum_of-drop_row, find-holds,
}
use assetlog.Db.{Database, CashTx, ok}
use assetlog.Cash.Rows.{of_amount}
use assetlog.Cash.Reconcile.{
  is_zero, reconcile_id, organic_cash, organic_trade, organic_dividend, organic_net, quantum,
  quantized, is_reconcile_row, new_row, repinned, pin, reconcile_cash_balance,
}
use assetlog.Cash.Rounding.{quantized_close}
use assetlog.Cash.OneRow.{
  pinned, IsPinned, pinned-new_row, pinned-repinned, sum-pinned-none, sum-pinned-some, find-none,
  organic-reconcile_row, id_of, OnePin, reconcile_rows-none, reconcile_rows-append,
  reconcile_rows-drop_row, reconcile_rows-set_row,
}

module _ (source currency : String) where
  new_row_is_pin :
      (id : ℕ) (a : ℤ) (at : ℕ) → is_reconcile_row source (new_row source id currency a at) ≡ true
  new_row_is_pin id a at = rw (text_same source, text_same (reconcile_id source)) refl

  zero_of : (a : ℤ) → is_zero a ≡ true → a ≡ pos 0
  zero_of a e = grind int_laws

  nonzero_of : (a : ℤ) → is_zero a ≡ false → a ≢ pos 0
  nonzero_of a e zero = cc (rw zero at e)

  pin_cases :
      (a : ℤ) (at : ℕ) (db : Database)
      → let after = pin source currency a at db in
        ((find (is_reconcile_row source) db.cash_txs ≡ none) × (a ≡ pos 0) × (after ≡ db))
        ⊎ ((find (is_reconcile_row source) db.cash_txs ≡ none)
            × (a ≢ pos 0)
            × (after ≡ record db {
              cash_txs = db.cash_txs ++ new_row source db.next_cash_tx currency a at ∷ [];
              next_cash_tx = suc db.next_cash_tx;
            }))
        ⊎ ((r : CashTx) × (find (is_reconcile_row source) db.cash_txs ≡ some r)
            × (a ≡ pos 0)
            × (after ≡ record db { cash_txs = drop_row id_of r.id db.cash_txs }))
        ⊎ ((r : CashTx) × (find (is_reconcile_row source) db.cash_txs ≡ some r)
            × (a ≢ pos 0)
            × (after ≡ record db {
              cash_txs = set_row id_of r.id (repinned source currency a at) db.cash_txs;
            }))
  unfolding pin
  pin_cases a at db = elim (Option-cases (find (is_reconcile_row source) db.cash_txs)) [
    | inl missing ↦ elim (Bool-cases (is_zero a)) [
      | inl zero ↦ inl (missing, zero_of a zero, ground arith)
      | inr other ↦ inr (inl (missing, nonzero_of a other, ground arith))
    ]
    | inr (r, found) ↦ elim (Bool-cases (is_zero a)) [
      | inl zero ↦ inr (inr (inl (r, found, zero_of a zero, ground arith)))
      | inr other ↦ inr (inr (inr (r, found, nonzero_of a other, ground arith)))
    ]
  ]

  -- Only the cash rows decide how the organic flow changes.
  organic_net-cash :
      (db : Database) (rows : List CashTx) (next : ℕ)
      → sum_of (organic_cash source currency) rows
        ≡ sum_of (organic_cash source currency) db.cash_txs
      → organic_net source currency (record db { cash_txs = rows; next_cash_tx = next })
        ≡ organic_net source currency db
  unfolding organic_net
  organic_net-cash db rows next same =
      ap
        (λ s.
          s
          +ℤ sum_of (organic_trade source currency db) db.transactions
          +ℤ sum_of (organic_dividend source currency) db.dividends)
        same

  pin_effect :
      (a : ℤ) (at : ℕ) (db : Database)
      → DistinctIds id_of db.cash_txs
      → OnePin source db.cash_txs
      → let after = pin source currency a at db in
        (sum_of (pinned source) after.cash_txs ≡ a)
        × (organic_net source currency after ≡ organic_net source currency db)
  pin_effect a at db ids one = elim (pin_cases a at db) [
    | inl (missing, zero, e) ↦
        rw (e, zero) (sum-pinned-none source _ (find-none source _ missing), refl)
    | inr (inl (missing, some_change, e)) ↦
        let row = new_row source db.next_cash_tx currency a at in
        rw e (
          rw
              (
                sum_of-append (pinned source) db.cash_txs (row ∷ []),
                sum-pinned-none source _ (find-none source _ missing),
              )
              (unfold sum_of in
                rw (pinned-new_row source currency db.next_cash_tx a at) (omega int_laws)),
          organic_net-cash db _ _ (
              rw (sum_of-append (organic_cash source currency) db.cash_txs (row ∷ [])) (
                unfold sum_of in
                rw (organic-reconcile_row source currency row (new_row_is_pin db.next_cash_tx a at))
                  (omega int_laws))),
        )
    | inr (inr (inl (r, found, zero, e))) ↦
        let is_row = find-holds (is_reconcile_row source) db.cash_txs r found in
        let dropped = λ (g : CashTx → ℤ).
          sum_of-drop_row id_of g (is_reconcile_row source) db.cash_txs r ids found in
        rw (e, zero)
          (
            taken_out _ _ _ (dropped (pinned source))
                (sum-pinned-some source db.cash_txs r one found),
            organic_net-cash db _ _ (
                kept_but _ _ _ _
                  (dropped (organic_cash source currency) ∙ sym (zero-+ℤ _) ∙ +ℤ_comm _ _)
                  (organic-reconcile_row source currency r is_row) refl),
          )
    | inr (inr (inr (r, found, some_change, e))) ↦
        let is_row = find-holds (is_reconcile_row source) db.cash_txs r found in
        let again = repinned source currency a at in
        let changed = λ (g : CashTx → ℤ).
          sum_of-set_row id_of g (is_reconcile_row source) again db.cash_txs r ids found in
        rw e (
          put_for _ _ _ _ (changed (pinned source)) (sum-pinned-some source db.cash_txs r one found)
              ∙ pinned-repinned source currency a at r is_row,
          organic_net-cash db _ _ (
              kept_but _ _ _ _ (changed (organic_cash source currency))
                (organic-reconcile_row source currency r is_row)
                (organic-reconcile_row source currency (again r) is_row)),
        )
  ]

  pin-IsPinned :
      (a : ℤ) (at : ℕ) (db : Database)
      → OnePin source db.cash_txs
      → IsPinned source currency at a (pin source currency a at db).cash_txs
  pin-IsPinned a at db one = elim (pin_cases a at db) [
    | inl (missing, zero, e) ↦
        rw e (inl (zero, reconcile_rows-none source _ (find-none source _ missing)))
    | inr (inl (missing, some_change, e)) ↦
        let row = new_row source db.next_cash_tx currency a at in
        rw e (
          inr (
            row,
            some_change,
            reconcile_rows-append source db.cash_txs row (find-none source _ missing)
                (new_row_is_pin db.next_cash_tx a at),
            refl,
            refl,
            pinned-new_row source currency db.next_cash_tx a at,
          ))
    | inr (inr (inl (r, found, zero, e))) ↦
        rw e (inl (zero, reconcile_rows-drop_row source db.cash_txs r one found))
    | inr (inr (inr (r, found, some_change, e))) ↦ rw e (
        inr (
          repinned source currency a at r,
          some_change,
          reconcile_rows-set_row source currency a at db.cash_txs r one found,
          refl,
          refl,
          pinned-repinned source currency a at r
              (find-holds (is_reconcile_row source) db.cash_txs r found),
        ))
  ]

  -- With primary keys and at most one reconcile row, a reconciliation leaves no reconcile row of the
  -- source if it reports zero, and else one, in the given currency, with the given time and worth what
  -- is reported. It leaves the organic flow as it was, and flow and row come to the target up to half
  -- of a quantum. Done again, it reports the same.
  pub reconcile_cash_balance-lands :
      (target_balance : ℤ) (at : ℕ) (db : Database)
      → DistinctIds id_of db.cash_txs
      → OnePin source db.cash_txs
      → let (r, after) = reconcile_cash_balance source currency target_balance at db in
        let pin_sum = sum_of (pinned source) after.cash_txs in
        let gap = target_balance -ℤ organic_net source currency after -ℤ of_amount pin_sum in
        (r ≡ ok pin_sum)
        × (organic_net source currency after ≡ organic_net source currency db)
        × (2 * (pos_part gap + neg_part gap) ≤ quantum currency)
        × IsPinned source currency at pin_sum after.cash_txs
        × ((later : ℕ) → (reconcile_cash_balance source currency target_balance later after).0 ≡ r)
  unfolding reconcile_cash_balance
  reconcile_cash_balance-lands target_balance at db ids one =
      let delta = target_balance -ℤ organic_net source currency db in
      let (worth, kept) = pin_effect (quantized currency delta) at db ids one in
      (
        ap ok (sym worth),
        kept,
        rw (kept, worth) (quantized_close currency delta),
        rw worth (pin-IsPinned (quantized currency delta) at db one),
        λ later. ap (λ n. ok (quantized currency (target_balance -ℤ n))) kept,
      )
