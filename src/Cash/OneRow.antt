-- ===== src/Cash/OneRow.antt =====
-- The reconcile row of a source: what dropping, adding and changing it leaves of such rows
-- (`reconcile_cash_balance` of backend/app/services/exchange_sync.py).
use assetlog.Prelude.{
  text_same, is_text, Option, ◌⊎◌, ◌≢◌, if◌then◌else◌, ℕ, String, ◌≡◌, refl, ap, ◌∙◌, true, false,
  some, none, List, [], ◌∷◌, ◌++◌, find, filter, All, All-filter, arith, inl, inr, Bool-cases, ◌==◌,
}
use assetlog.Prelude.Int.{ℤ, pos, ◌-ℤ◌, int_laws}
use assetlog.Prelude.Sums.{sum_of}
use assetlog.Prelude.Table.{set_row, drop_row}
use assetlog.Db.{CashTx}
use assetlog.Cash.Rows.{is_positive}
use assetlog.Cash.Reconcile.{
  reconcile_id, is_other_text, organic_cash, is_reconcile_row, magnitude, kind_of, new_row,
  repinned,
}

abbrev pub id_of : CashTx → ℕ
id_of r = r.id

module _ (source : String) where
  -- UNIQUE (external_source, external_id), for the one key that matters here.
  abbrev pub OnePin : List CashTx → Type 0
  OnePin [] = Unit
  OnePin (x ∷ rows) =
      (is_reconcile_row source x ≡ true → All (λ y. is_reconcile_row source y ≡ false) rows)
      × OnePin rows

  abbrev pub reconcile_rows : List CashTx → List CashTx
  reconcile_rows rows = filter (is_reconcile_row source) rows

  pub reconcile_rows-none :
      (rows : List CashTx)
      → All (λ y. is_reconcile_row source y ≡ false) rows
      → reconcile_rows rows ≡ []
  unfolding filter
  reconcile_rows-none [] h = refl
  reconcile_rows-none (x ∷ rows) h = rw h.0 (reconcile_rows-none rows h.1)

  pub reconcile_rows-append :
      (rows : List CashTx) (r : CashTx)
      → All (λ y. is_reconcile_row source y ≡ false) rows
      → is_reconcile_row source r ≡ true
      → reconcile_rows (rows ++ r ∷ []) ≡ r ∷ []
  unfolding filter
  reconcile_rows-append [] r h e = rw e refl
  reconcile_rows-append (x ∷ rows) r h e = rw h.0 (reconcile_rows-append rows r h.1 e)

  pub reconcile_rows-drop_row :
      (rows : List CashTx) (r : CashTx)
      → OnePin rows
      → find (is_reconcile_row source) rows ≡ some r
      → reconcile_rows (drop_row id_of r.id rows) ≡ []
  unfolding find filter
  reconcile_rows-drop_row [] r one e = cc
  reconcile_rows-drop_row (x ∷ rows) r one e = elim (Bool-cases (is_reconcile_row source x)) [
    | inl here ↦
        let same : x ≡ r = ground arith in
        let rest : All (λ y. is_reconcile_row source y ≡ false) (drop_row id_of r.id rows) =
          All-filter _ _ rows (one.0 here) in
        ground (arith, ap id_of same, reconcile_rows-none (drop_row id_of r.id rows) rest)
    | inr there ↦
        let rest = reconcile_rows-drop_row rows r one.1 (ground arith) in
        elim (Bool-cases (x.id == r.id)) [
          | inl own ↦ rw own rest
          | inr other ↦ rw (other, there) rest
        ]
  ]

  module _ (currency : String) (a : ℤ) (at : ℕ) where
    kept_none :
        (k : ℕ) (rows : List CashTx)
        → All (λ y. is_reconcile_row source y ≡ false) rows
        → All
            (λ y. is_reconcile_row source y ≡ false)
            (set_row id_of k (repinned source currency a at) rows)
    kept_none k [] h = tt
    kept_none k (x ∷ rows) h = elim (Bool-cases (x.id == k)) [
      | inl own ↦ rw own (h.0, kept_none k rows h.1)
      | inr other ↦ rw other (h.0, kept_none k rows h.1)
    ]

    pub reconcile_rows-set_row :
        (rows : List CashTx) (r : CashTx)
        → OnePin rows
        → find (is_reconcile_row source) rows ≡ some r
        → reconcile_rows (set_row id_of r.id (repinned source currency a at) rows)
          ≡ repinned source currency a at r ∷ []
    unfolding find filter
    reconcile_rows-set_row [] r one e = cc
    reconcile_rows-set_row (x ∷ rows) r one e = elim (Bool-cases (is_reconcile_row source x)) [
      | inl here ↦
          let same : x ≡ r = ground arith in
          let own : (x.id == r.id) ≡ true = ground (arith, ap id_of same) in
          rw (own, here)
            (ap (λ l. repinned source currency a at x ∷ l)
                (reconcile_rows-none _ (kept_none r.id rows (one.0 here)))
              ∙ ap (λ y. repinned source currency a at y ∷ []) same)
      | inr there ↦
          let rest = reconcile_rows-set_row rows r one.1 (ground arith) in
          elim (Bool-cases (x.id == r.id)) [
            | inl own ↦ rw (own, there) rest
            | inr other ↦ rw (other, there) rest
          ]
    ]

-- The signed amount of a row, if it is a reconcile row of the source.
abbrev pub pinned : String → CashTx → ℤ
pinned source r =
    if is_reconcile_row source r
    then (if is_positive r.kind then r.amount else pos 0 -ℤ r.amount)
    else pos 0

-- The one reconcile row of a source, worth `a` in a currency at a time; no such row if that is nothing.
abbrev pub IsPinned : String → String → ℕ → ℤ → List CashTx → Type 0
IsPinned source currency at a rows =
    ((a ≡ pos 0) × (reconcile_rows source rows ≡ []))
    ⊎ ((r : CashTx) × (a ≢ pos 0)
        × (reconcile_rows source rows ≡ r ∷ [])
        × (r.currency ≡ currency)
        × (r.traded_at ≡ at)
        × (pinned source r ≡ a))

signed_magnitude :
    (a : ℤ) → (if is_positive (kind_of a) then magnitude a else pos 0 -ℤ magnitude a) ≡ a
unfolding is_positive
signed_magnitude a = grind int_laws

is_other_text-is_text :
    (o : Option String) (t : String) → is_text o t ≡ true → is_other_text o t ≡ false
is_other_text-is_text none t e = cc
is_other_text-is_text (some s) t e = rw e refl

module _ (source : String) where
  pub pinned-new_row :
      (currency : String) (id : ℕ) (a : ℤ) (at : ℕ)
      → pinned source (new_row source id currency a at) ≡ a
  pinned-new_row currency id a at =
      rw (text_same source, text_same (reconcile_id source)) (signed_magnitude a)

  pub pinned-repinned :
      (currency : String) (a : ℤ) (at : ℕ) (r : CashTx)
      → is_reconcile_row source r ≡ true
      → pinned source (repinned source currency a at r) ≡ a
  pinned-repinned currency a at r e = rw e (signed_magnitude a)

  pub sum-pinned-none :
      (rows : List CashTx)
      → All (λ y. is_reconcile_row source y ≡ false) rows
      → sum_of (pinned source) rows ≡ pos 0
  unfolding sum_of
  sum-pinned-none [] h = refl
  sum-pinned-none (x ∷ rows) h = rw (h.0, sum-pinned-none rows h.1) (omega int_laws)

  pub find-none :
      (rows : List CashTx)
      → find (is_reconcile_row source) rows ≡ none
      → All (λ y. is_reconcile_row source y ≡ false) rows
  unfolding find
  find-none [] e = tt
  find-none (x ∷ rows) e = elim (Bool-cases (is_reconcile_row source x)) [
    | inl here ↦ absurd (ground arith)
    | inr there ↦ (there, find-none rows (ground arith))
  ]

  pub sum-pinned-some :
      (rows : List CashTx) (r : CashTx)
      → OnePin source rows
      → find (is_reconcile_row source) rows ≡ some r
      → sum_of (pinned source) rows ≡ pinned source r
  unfolding sum_of find
  sum-pinned-some [] r one e = cc
  sum-pinned-some (x ∷ rows) r one e = elim (Bool-cases (is_reconcile_row source x)) [
    | inl here ↦
        let same : x ≡ r = ground arith in
        rw (sum-pinned-none rows (one.0 here), same) (omega int_laws)
    | inr there ↦ rw (there, sum-pinned-some rows r one.1 (ground arith)) (omega int_laws)
  ]

  pub organic-reconcile_row :
      (currency : String) (r : CashTx)
      → is_reconcile_row source r ≡ true
      → organic_cash source currency r ≡ pos 0
  organic-reconcile_row currency r e =
      grind (arith, is_other_text-is_text r.external_id (reconcile_id source))
