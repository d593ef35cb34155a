-- ===== src/History/Quantities.antt =====
-- What is held at a time, from the transactions up to it.
use assetlog.Prelude.{
  ℕ, ◌+◌, ◌-◌, ◌≤◌, ◌<◌, ◌≡◌, refl, ap, ◌∙◌, sym, List, [], ◌∷◌, All, All-filter, map, filter, ltb,
  leb, arith, inl, inr, Bool-cases, if◌then◌else◌, true, false,
}
use assetlog.Prelude.Int.{ℤ}
use assetlog.Prelude.Sorting.{Ascending}
use assetlog.Prelude.Keyed.{Keyed, at_key_or, set_key}
use assetlog.Db.{is_buy}
use assetlog.History.Rows.{AllTxRow}
use assetlog.History.Points.{Holding, nothing_held, apply_tx, apply_until, guard_residuals}

abbrev pub traded : AllTxRow → ℕ
traded tx = tx.traded_at

abbrev pub quantities : Keyed Holding → Keyed ℕ
quantities held = map (λ (sym_id, h). (sym_id, h.qty)) held

-- A purchase adds to its symbol's shares, and a sale takes from them as long as there are any.
unfoldable pub trade : AllTxRow → Keyed ℕ → Keyed ℕ
unfolding at_key_or set_key
trade tx shares =
    let n = at_key_or tx.symbol_id 0 shares in
    if is_buy tx.tx_type
    then set_key tx.symbol_id (n + tx.quantity) shares
    else if ltb 0 n
    then set_key tx.symbol_id (n - tx.quantity) shares
    else shares

unfoldable pub trade_all : List AllTxRow → Keyed ℕ → Keyed ℕ
unfolding trade
trade_all [] shares = shares
trade_all (tx ∷ txs) shares = trade_all txs (trade tx shares)

-- The transactions up to a time.
abbrev pub until : ℕ → List AllTxRow → List AllTxRow
until ts txs = filter (λ tx. leb tx.traded_at ts) txs

abbrev pub after : ℕ → List AllTxRow → List AllTxRow
after ts txs = filter (λ tx. ltb ts tx.traded_at) txs

qty-at_key_or :
    (k : ℕ) (held : Keyed Holding)
    → at_key_or k 0 (quantities held) ≡ (at_key_or k nothing_held held).qty
unfolding at_key_or
qty-at_key_or k [] = refl
qty-at_key_or k ((j, h) ∷ held) = ground (arith, qty-at_key_or k held)

quantities-set_key :
    (k : ℕ) (h : Holding) (held : Keyed Holding)
    → quantities (set_key k h held) ≡ set_key k h.qty (quantities held)
unfolding set_key
quantities-set_key k h [] = refl
quantities-set_key k h ((j, other) ∷ held) = ground (arith, quantities-set_key k h held)

pub quantities-guard_residuals :
    (held : Keyed Holding) → quantities (guard_residuals held) ≡ quantities held
quantities-guard_residuals [] = refl
quantities-guard_residuals ((k, h) ∷ held) = ground (arith, quantities-guard_residuals held)

module _ (flushed : ℤ → ℕ → ℕ → ℤ) where
  quantities-apply_tx :
      (tx : AllTxRow) (held : Keyed Holding)
      → quantities (apply_tx flushed tx held) ≡ trade tx (quantities held)
  unfolding apply_tx trade
  quantities-apply_tx tx held =
      let k = tx.symbol_id in
      let cur = at_key_or k nothing_held held in
      let sold = if leb tx.quantity cur.qty then tx.quantity else cur.qty in
      let same = qty-at_key_or k held in
      let left : cur.qty - sold ≡ at_key_or k 0 (quantities held) - tx.quantity =
        ground (arith, same) in
      let put = λ (n : ℕ). set_key k n (quantities held) in
      elim (Bool-cases (is_buy tx.tx_type)) [
        | inl buys ↦
            rw buys (quantities-set_key k _ held ∙ ap (λ n. put (n + tx.quantity)) (sym same))
        | inr sells ↦ elim (Bool-cases (ltb 0 cur.qty)) [
          | inl some ↦
              rw (sells, same, some)
                (quantities-set_key k _ held ∙ ap put (left ∙ ap (λ n. n - tx.quantity) same))
          | inr nothing ↦ rw (sells, same, nothing) refl
        ]
      ]

  none_until :
      (ts : ℕ) (n : ℕ) (txs : List AllTxRow)
      → ts < n
      → All (λ (tx : AllTxRow). n ≤ tx.traded_at) txs
      → (until ts txs ≡ []) × (after ts txs ≡ txs)
  unfolding filter
  none_until ts n [] lt h = (refl, refl)
  none_until ts n (tx ∷ txs) lt h = ground (arith, lt, h.0, none_until ts n txs lt h.1)

  pub apply_until_lem :
      (ts : ℕ) (txs : List AllTxRow) (held : Keyed Holding)
      → Ascending traded txs
      → (quantities (apply_until flushed ts txs held).0
          ≡ trade_all (until ts txs) (quantities held))
        × ((apply_until flushed ts txs held).1 ≡ after ts txs)
  unfolding apply_until trade_all filter
  apply_until_lem ts [] held up = (refl, refl)
  apply_until_lem ts (tx ∷ txs) held up = elim (Bool-cases (ltb ts tx.traded_at)) [
    | inl late ↦
        let (none_before, all_after) = none_until ts tx.traded_at txs (ground arith) up.0 in
        let not_yet : leb tx.traded_at ts ≡ false = ground arith in
        rw (late, not_yet, none_before, all_after) (refl, refl)
    | inr in_time ↦
        let now : leb tx.traded_at ts ≡ true = ground arith in
        let (held_then, left) = apply_until_lem ts txs (apply_tx flushed tx held) up.1 in
        rw (in_time, now)
          (held_then ∙ ap (trade_all (until ts txs)) (quantities-apply_tx tx held), left)
  ]

  pub after-Ascending :
      (ts : ℕ) (txs : List AllTxRow) → Ascending traded txs → Ascending traded (after ts txs)
  unfolding filter
  after-Ascending ts [] up = tt
  after-Ascending ts (tx ∷ txs) up = elim (Bool-cases (ltb ts tx.traded_at)) [
    | inl late ↦ rw late (All-filter _ _ txs up.0, after-Ascending ts txs up.1)
    | inr in_time ↦ rw in_time (after-Ascending ts txs up.1)
  ]

  -- The transactions up to a later time, in two goes.
  pub trade_all-after :
      (ts later : ℕ) (txs : List AllTxRow) (shares : Keyed ℕ)
      → ts ≤ later
      → Ascending traded txs
      → trade_all (until later (after ts txs)) (trade_all (until ts txs) shares)
        ≡ trade_all (until later txs) shares
  unfolding trade_all filter
  trade_all-after ts later [] shares le up = refl
  trade_all-after ts later (tx ∷ txs) shares le up = elim (Bool-cases (ltb ts tx.traded_at)) [
    | inl late ↦
        let (none_before, all_after) = none_until ts tx.traded_at txs (ground arith) up.0 in
        let not_yet : leb tx.traded_at ts ≡ false = ground arith in
        rw (late, not_yet, none_before, all_after) refl
    | inr in_time ↦
        let now : leb tx.traded_at ts ≡ true = ground arith in
        let still : leb tx.traded_at later ≡ true = ground (arith, le) in
        rw (in_time, now, still) (trade_all-after ts later txs (trade tx shares) le up.1)
  ]
