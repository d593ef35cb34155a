-- ===== src/Tax/Fifo.antt =====
-- First in, first out.
use assetlog.Prelude.{
  All, ◌++◌, ℕ, ◌+◌, ◌-◌, ◌≤◌, min, ◌≡◌, refl, ap, ◌∙◌, Bool, true, false, Option, none, some, List,
  [], ◌∷◌, ltb, ◌==◌, if◌then◌else◌, arith,
}
use assetlog.Prelude.Int.{pos_part}
use assetlog.Db.{Transaction, is_buy}
use assetlog.Tax.Lots.{
  Lot, consume_lots, match_lots, bought_lot, next_lots, sale_of, sales_fifo, Sale,
}

-- The shares of a queue of lots.
unfoldable pub shares : List Lot → ℕ
shares [] = 0
shares (lot ∷ lots) = lot.qty + shares lots

-- When the n-th share of the queue was bought, and for what.
unfoldable pub share_at : ℕ → List Lot → Option (ℕ × ℕ)
share_at n [] = none
share_at n (lot ∷ lots) =
    let later = share_at (n - lot.qty) lots in
    if ltb n lot.qty then some (lot.traded_at, lot.price) else later

pub consume_lots-match_lots :
    (lots : List Lot) (q : ℕ) → consume_lots lots q ≡ (match_lots lots q).lots
unfolding consume_lots match_lots
consume_lots-match_lots [] q = refl
consume_lots-match_lots (lot ∷ lots) q =
    grind (arith, consume_lots-match_lots lots (q - min lot.qty q))

conserved :
    (lots : List Lot) (q : ℕ)
    → let m = match_lots lots q in
      (shares m.pieces + shares m.lots ≡ shares lots) × (shares m.pieces + m.short ≡ q)
unfolding match_lots shares
conserved [] q = (refl, omega arith)
conserved (lot ∷ lots) q = grind (arith, conserved lots (q - min lot.qty q))

-- What is left is the queue from its q-th share on.
left_from :
    (lots : List Lot) (q n : ℕ) → share_at n (match_lots lots q).lots ≡ share_at (q + n) lots
unfolding match_lots share_at
left_from [] q n = refl
left_from (lot ∷ lots) q n = grind (arith, left_from lots (q - min lot.qty q) n)

-- What is taken is the first shares of the queue.
taken_first :
    (lots : List Lot) (q n : ℕ)
    → share_at n (match_lots lots q).pieces ≡ (if ltb n q then share_at n lots else none)
unfolding match_lots share_at
taken_first [] q n = ground arith
taken_first (lot ∷ lots) q n = grind (arith, taken_first lots (q - min lot.qty q) (n - lot.qty))

short_of : (lots : List Lot) (q : ℕ) → (match_lots lots q).short ≡ q - shares lots
unfolding match_lots shares
short_of [] q = omega arith
short_of (lot ∷ lots) q = grind (arith, short_of lots (q - min lot.qty q))

-- A sale of q shares takes the first q of the queue, or all of them: the n-th share that it takes is
-- the queue's n-th, the n-th share left is the queue's (q + n)-th, and what no lot covers is the rest
-- of q. The lots left are those that a sale outside the year leaves.
pub match_lots_lem :
    (lots : List Lot) (q : ℕ)
    → let m = match_lots lots q in
      (shares m.pieces ≡ min q (shares lots))
      × (m.short ≡ q - shares lots)
      × (shares m.lots ≡ shares lots - q)
      × ((n : ℕ) → share_at n m.pieces ≡ (if ltb n q then share_at n lots else none))
      × ((n : ℕ) → share_at n m.lots ≡ share_at (q + n) lots)
      × (consume_lots lots q ≡ m.lots)
match_lots_lem lots q =
    let (total, asked) = conserved lots q in
    let short = short_of lots q in
    (
      omega arith,
      short,
      omega arith,
      taken_first lots q,
      left_from lots q,
      consume_lots-match_lots lots q,
    )

-- What the transactions of the list buy and sell.
abbrev pub bought_in : List Transaction → ℕ
bought_in [] = 0
bought_in (tx ∷ rest) = (if is_buy tx.type then pos_part tx.quantity else 0) + bought_in rest

abbrev pub sold_in : List Transaction → ℕ
sold_in [] = 0
sold_in (tx ∷ rest) = (if is_buy tx.type then 0 else pos_part tx.quantity) + sold_in rest

-- From n shares on, no sale of the list is of more than there are.
abbrev pub NeverShort : ℕ → List Transaction → Type 0
NeverShort n [] = Unit
NeverShort n (tx ∷ rest) =
    (is_buy tx.type ≡ false → pos_part tx.quantity ≤ n)
    × NeverShort (if is_buy tx.type then n + pos_part tx.quantity else n - pos_part tx.quantity)
        rest

shares-append : (lots : List Lot) (lot : Lot) → shares (lots ++ lot ∷ []) ≡ shares lots + lot.qty
unfolding shares
shares-append [] lot = omega arith
shares-append (x ∷ lots) lot = omega (arith, shares-append lots lot)

module _ (year_of fx : ℕ → ℕ) where
  -- The lots at the end are the same for every year that is asked for.
  pub sales_fifo_year :
      (this that : ℕ) (txs : List Transaction) (lots : List Lot)
      → (sales_fifo year_of fx this txs lots).1 ≡ (sales_fifo year_of fx that txs lots).1
  unfolding sales_fifo
  sales_fifo_year this that [] lots = refl
  sales_fifo_year this that (tx ∷ rest) lots =
      let same : next_lots year_of this tx lots ≡ next_lots year_of that tx lots =
        ground (arith, consume_lots-match_lots lots (pos_part tx.quantity)) in
      ap (λ ls. (sales_fifo year_of fx this rest ls).1) same
      ∙ sales_fifo_year this that rest (next_lots year_of that tx lots)

  shares-next_lots :
      (year : ℕ) (tx : Transaction) (lots : List Lot)
      → shares (next_lots year_of year tx lots) ≡ (
          if is_buy tx.type
          then shares lots + pos_part tx.quantity
          else shares lots - pos_part tx.quantity)
  shares-next_lots year tx lots =
      let q = pos_part tx.quantity in
      let left = (match_lots_lem lots q).2 in
      let same = consume_lots-match_lots lots q in
      ground (arith, left, ap shares same, shares-append lots (bought_lot tx))

  clean_entry :
      (buy counted : Bool) (sale : Sale) (sales : List Sale)
      → (buy ≡ false → sale.oversold ≡ false)
      → All (λ (s : Sale). s.oversold ≡ false) sales
      → All
          (λ (s : Sale). s.oversold ≡ false)
          (if buy then sales else if counted then sale ∷ sales else sales)
  clean_entry true counted sale sales ok h = h
  clean_entry false true sale sales ok h = (ok refl, h)
  clean_entry false false sale sales ok h = h

  covered_sale :
      (tx : Transaction) (lots : List Lot)
      → pos_part tx.quantity ≤ shares lots
      → (sale_of year_of fx tx (match_lots lots (pos_part tx.quantity))).oversold ≡ false
  unfolding sale_of
  covered_sale tx lots enough = ground (arith, short_of lots (pos_part tx.quantity))

  -- If no sale is of more shares than there are at its time, then no sale of the report is marked as
  -- oversold, and the lots at the end hold what was bought and not sold.
  pub sales_fifo_balance :
      (year : ℕ) (txs : List Transaction) (lots : List Lot)
      → NeverShort (shares lots) txs
      → let (sales, last) = sales_fifo year_of fx year txs lots in
        (shares last + sold_in txs ≡ shares lots + bought_in txs)
        × All (λ (s : Sale). s.oversold ≡ false) sales
  unfolding sales_fifo sale_of
  sales_fifo_balance year [] lots h = (refl, tt)
  sales_fifo_balance year (tx ∷ rest) lots h =
      let next = next_lots year_of year tx lots in
      let step = shares-next_lots year tx lots in
      let (sum, clean) = sales_fifo_balance year rest next (rw step h.1) in
      (
        ground (arith, sum, step, h.0),
        clean_entry (is_buy tx.type) (year_of tx.traded_at == year) _ _
            (λ sell. covered_sale tx lots (h.0 sell)) clean,
      )
