-- ===== src/Portfolio/Agreement.antt =====
-- The holdings table, the summary of an asset, and the remaining quantity.
use assetlog.Prelude.{
  ℕ, Bool, true, ◌≡◌, refl, ap, ◌∙◌, sym, some, List, [], ◌∷◌, map, filter, find, any, All,
  All-filter, arith, ◌==◌, ==_iff, if◌then◌else◌, inl, inr, Bool-cases, Option-cases,
}
use assetlog.Prelude.Int.{ℤ, pos, ◌+ℤ◌, ◌-ℤ◌, ◌≤ℤ◌, leb_ℤ, ltb_ℤ, int_laws, +ℤ_assoc, zero-+ℤ}
use assetlog.Prelude.Keyed.{at_key_or}
use assetlog.Prelude.Sums.{sum_of}
use assetlog.Prelude.Table.{find-holds}
use assetlog.Prelude.Sorting.{All-sort, sum_of-sort}
use assetlog.Db.{Database, Transaction, UserAsset, is_buy}
use assetlog.Trades.{
  chronological, is_of, list_all_for_user_asset, get_user_asset, get_remaining_quantity,
}
use assetlog.Trades.Holdings.{change_of, remaining-eq-sum_for}
use assetlog.Trades.Rows.{sum_for}
use assetlog.Portfolio.Holdings.{
  Averages, Walk, start, walk_step, walk, HoldingRow, holding_row, load_transactions_ordered,
  load_buy_lots, list_holdings_with_aggregates, ids_of, AssetSummary, summary_of, summary_or_none,
  summary,
}
use assetlog.Portfolio.Grouped.{load_transactions_ordered_lem}

abbrev NotNegative : Transaction → Type 0
NotNegative tx = pos 0 ≤ℤ tx.quantity

module _ (dec : Averages) where
  walk_step-qty :
      (tx : Transaction) (w : Walk)
      → NotNegative tx
      → pos 0 ≤ℤ w.qty
      → pos 0 ≤ℤ (walk_step dec tx w).qty
  unfolding walk_step
  walk_step-qty tx w h held = grind (int_laws, h, held)

  walk-qty :
      (txs : List Transaction) (w : Walk)
      → All NotNegative txs
      → pos 0 ≤ℤ w.qty
      → pos 0 ≤ℤ (walk dec txs w).qty
  unfolding walk
  walk-qty [] w h held = held
  walk-qty (tx ∷ txs) w h held = walk-qty txs (walk_step dec tx w) h.1 (walk_step-qty tx w h.0 held)

-- From n on, no sale of the list is of more than there is.
abbrev pub NeverShort : ℤ → List Transaction → Type 0
NeverShort n [] = Unit
NeverShort n (tx ∷ rest) = (pos 0 ≤ℤ n +ℤ change_of tx) × NeverShort (n +ℤ change_of tx) rest

sale_all :
    (q n : ℤ)
    → pos 0 ≤ℤ q
    → pos 0 ≤ℤ n
    → pos 0 ≤ℤ n +ℤ (pos 0 -ℤ q)
    → (if ltb_ℤ (pos 0) n then n -ℤ (if leb_ℤ q n then q else n) else n) ≡ n +ℤ (pos 0 -ℤ q)
sale_all q n h held enough =
    let all : leb_ℤ q n ≡ true = grind (int_laws, h, held, enough) in
    elim (Bool-cases (ltb_ℤ (pos 0) n)) [
      | inl some_held ↦ rw (some_held, all) (omega int_laws)
      | inr nothing ↦ rw nothing (grind (int_laws, h, held, enough, nothing))
    ]

step_all :
    (dec : Averages) (tx : Transaction) (w : Walk)
    → NotNegative tx
    → pos 0 ≤ℤ w.qty
    → pos 0 ≤ℤ w.qty +ℤ change_of tx
    → (walk_step dec tx w).qty ≡ w.qty +ℤ change_of tx
unfolding walk_step
step_all dec tx w h held enough = elim (Bool-cases (is_buy tx.type)) [
  | inl buys ↦ rw buys refl
  | inr sells ↦
      let left : pos 0 ≤ℤ w.qty +ℤ (pos 0 -ℤ tx.quantity) = rw sells at enough in
      let sale = sale_all tx.quantity w.qty h held left in ground (arith, sells, sale)
]

walk-sum_of :
    (dec : Averages) (txs : List Transaction) (w : Walk)
    → All NotNegative txs
    → pos 0 ≤ℤ w.qty
    → NeverShort w.qty txs
    → (walk dec txs w).qty ≡ w.qty +ℤ sum_of change_of txs
unfolding walk sum_of
walk-sum_of dec [] w h held enough = omega int_laws
walk-sum_of dec (tx ∷ txs) w h held enough =
    let next = step_all dec tx w h.0 held enough.0 in
    walk-sum_of dec txs (walk_step dec tx w) h.1 (rw next enough.0) (rw next enough.1)
    ∙ ap (λ q. q +ℤ sum_of change_of txs) next
    ∙ +ℤ_assoc w.qty (change_of tx) (sum_of change_of txs)

not_gone : (q : ℤ) → pos 0 ≤ℤ q → (if leb_ℤ q (pos 0) then pos 0 else q) ≡ q
not_gone q h = ground (arith, h)

abbrev pub of_asset : ℕ → HoldingRow → Bool
of_asset uid h = h.user_asset_id == uid

module _ (dec : Averages) (uid : ℕ) where
  found_asset :
      (f : UserAsset → HoldingRow) (uas : List UserAsset) (row : HoldingRow)
      → ((ua : UserAsset) → (f ua).user_asset_id ≡ ua.id)
      → find (of_asset uid) (map f uas) ≡ some row
      → (ua : UserAsset) × (find (λ (a : UserAsset). a.id == uid) uas ≡ some ua)
        × (f ua ≡ row)
        × (any (λ id. id == uid) (ids_of uas) ≡ true)
        × (ua.id ≡ uid)
  unfolding find
  found_asset f [] row same e = cc
  found_asset f (ua ∷ uas) row same e = elim (Bool-cases (ua.id == uid)) [
    | inl here ↦
        (ua, rw here refl, ground (arith, e, here, same ua), rw here refl, ground (arith, here))
    | inr there ↦
        let (a, known, eq, listed, id) =
          found_asset f uas row same (ground (arith, e, there, same ua)) in
        (a, rw there known, eq, rw there listed, id)
  ]

  abbrev walked : Database → Walk
  walked db = walk dec (list_all_for_user_asset uid db) start

  rows-NotNegative :
      (db : Database)
      → All NotNegative db.transactions
      → All NotNegative (list_all_for_user_asset uid db)
  unfolding list_all_for_user_asset
  rows-NotNegative db h =
      All-sort _ chronological (filter (is_of uid) db.transactions)
        (All-filter _ (is_of uid) db.transactions h)

  -- The holdings table and the summary of an asset show the same quantity and the same realised gain,
  -- however the averages are rounded, if no quantity is negative.
  pub summary-list_holdings :
      (db : Database) (row : HoldingRow)
      → All NotNegative db.transactions
      → find (of_asset uid) (list_holdings_with_aggregates dec db) ≡ some row
      → (s : AssetSummary) × (summary dec uid db ≡ some s)
        × (s.remaining_quantity ≡ row.total_qty)
        × (s.realized_pnl ≡ row.realized_pnl)
  unfolding list_holdings_with_aggregates summary get_user_asset
  summary-list_holdings db row h e =
      let txs_by_ua = load_transactions_ordered (ids_of db.user_assets) db in
      let lots = load_buy_lots (ids_of db.user_assets) db in
      let (ua, known, eq, listed, id) =
        found_asset (holding_row dec txs_by_ua lots db.asset_symbols) db.user_assets row
          (λ ua. refl) e in
      let own =
        ap (λ k. at_key_or k [] txs_by_ua) id
        ∙ load_transactions_ordered_lem uid (ids_of db.user_assets) db listed in
      let same_walk : walk dec (at_key_or ua.id [] txs_by_ua) start ≡ walked db =
        ap (λ txs. walk dec txs start) own in
      let kept =
        walk-qty dec (list_all_for_user_asset uid db) start (rows-NotNegative db h) (omega arith) in
      (
        summary_of dec db ua,
        ap (summary_or_none dec db) known,
        ap (λ k. (walk dec (list_all_for_user_asset k db) start).qty) id
            ∙ sym (not_gone (walked db).qty kept)
            ∙ ap (λ (w : Walk). if leb_ℤ w.qty (pos 0) then pos 0 else w.qty) (sym same_walk)
            ∙ ap (λ (r : HoldingRow). r.total_qty) eq,
        ap (λ k. (walk dec (list_all_for_user_asset k db) start).realized) id
            ∙ ap (λ (w : Walk). w.realized) (sym same_walk)
            ∙ ap (λ (r : HoldingRow). r.realized_pnl) eq,
      )

  walked-get_remaining_quantity :
      (db : Database)
      → All NotNegative db.transactions
      → NeverShort (pos 0) (list_all_for_user_asset uid db)
      → (walked db).qty ≡ get_remaining_quantity uid db
  unfolding list_all_for_user_asset sum_for
  walked-get_remaining_quantity db h enough =
      walk-sum_of dec (list_all_for_user_asset uid db) start (rows-NotNegative db h) (omega arith)
        enough
      ∙ zero-+ℤ (sum_of change_of (list_all_for_user_asset uid db))
      ∙ sum_of-sort change_of chronological (filter (is_of uid) db.transactions)
      ∙ sym (remaining-eq-sum_for uid db)

  -- If no quantity is negative, and in the order of the asset's transactions no sale is of more than
  -- there is, then the summary shows what the purchases and sales come to, which is what a new sale
  -- is checked against.
  pub summary-get_remaining_quantity :
      (db : Database) (s : AssetSummary)
      → All NotNegative db.transactions
      → NeverShort (pos 0) (list_all_for_user_asset uid db)
      → summary dec uid db ≡ some s
      → s.remaining_quantity ≡ get_remaining_quantity uid db
  unfolding summary get_user_asset
  summary-get_remaining_quantity db s h enough e = elim (Option-cases (get_user_asset uid db)) [
    | inl lost ↦ absurd (ground (arith, sym (ap (summary_or_none dec db) lost) ∙ e))
    | inr (ua, known) ↦
        let id : (ua.id == uid) ≡ true =
          find-holds (λ (a : UserAsset). a.id == uid) db.user_assets ua known in
        let same : some (summary_of dec db ua) ≡ some s =
          sym (ap (summary_or_none dec db) known) ∙ e in
        let shown : summary_of dec db ua ≡ s = ground (arith, same) in
        sym (ap (λ (t : AssetSummary). t.remaining_quantity) shown)
        ∙ ap (λ k. (walk dec (list_all_for_user_asset k db) start).qty) ((==_iff ua.id uid).0 id)
        ∙ walked-get_remaining_quantity db h enough
  ]
