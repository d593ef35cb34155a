-- ===== src/Tax/Lots.antt =====
-- The FIFO matching of backend/app/services/tax_kr.py. Shares are numbers of 10^-10, since the schema
-- admits positive quantities only. FX rates are those that `_fx_at_or_warn` gives, a parameter here,
-- and so is the year of a datetime; the arithmetic is exact.
use assetlog.Prelude.{ℕ, ◌+◌, ◌-◌, ◌*◌, min, Bool, List, [], ◌∷◌, ◌++◌, ltb, ◌==◌, if◌then◌else◌}
use assetlog.Prelude.Int.{ℤ, pos, pos_part, ◌-ℤ◌}
use assetlog.Db.{Transaction, is_buy}

-- `(traded_at, remaining_qty, unit_price_local)`
pub record Lot : Type 0 where
  pub traded_at : ℕ
  pub qty : ℕ
  pub price : ℕ

-- `_consume_lots`: where the loop does not remove a lot it has taken all that remained, so that lot
-- is the last that it looks at.
unfoldable pub consume_lots : List Lot → ℕ → List Lot
consume_lots [] qty_remaining = []
consume_lots (lot ∷ lots) qty_remaining =
    let taken = min lot.qty qty_remaining in
    let rest = consume_lots lots (qty_remaining - taken) in
    if qty_remaining == 0
    then lot ∷ lots
    else if lot.qty - taken == 0
    then rest
    else record lot { qty = lot.qty - taken } ∷ lots

-- What the loop of a sale has when it ends: the lots that are left, what it took of each, and the
-- shares that no lot covered.
pub record Matched : Type 0 where
  pub lots : List Lot
  pub pieces : List Lot
  pub short : ℕ

abbrev pub matched : List Lot → List Lot → ℕ → Matched
matched lots pieces short = record { lots = lots; pieces = pieces; short = short }

abbrev pub with_piece : Lot → Matched → Matched
with_piece piece m = record m { pieces = piece ∷ m.pieces }

unfoldable pub match_lots : List Lot → ℕ → Matched
match_lots [] qty_remaining = matched [] [] qty_remaining
match_lots (lot ∷ lots) qty_remaining =
    let taken = min lot.qty qty_remaining in
    let piece : Lot = record lot { qty = taken } in
    let rest = match_lots lots (qty_remaining - taken) in
    if qty_remaining == 0
    then matched (lot ∷ lots) [] 0
    else if lot.qty - taken == 0
    then with_piece piece rest
    else matched (record lot { qty = lot.qty - taken } ∷ lots) (piece ∷ []) (qty_remaining - taken)

-- `cost_basis_krw`, from what was taken.
unfoldable pub cost_basis : (ℕ → ℕ) → List Lot → ℕ
cost_basis fx [] = 0
cost_basis fx (piece ∷ rest) = piece.qty * piece.price * fx piece.traded_at + cost_basis fx rest

-- `TaxableSaleEntry`, without the names of the symbol, and its warning.
pub record Sale : Type 0 where
  pub sold_at : ℕ
  pub quantity : ℕ
  pub sell_value_krw : ℕ
  pub cost_basis_krw : ℕ
  pub realized_gain_krw : ℤ
  pub oversold : Bool

abbrev pub bought_lot : Transaction → Lot
bought_lot tx = record {
  traded_at = tx.traded_at;
  qty = pos_part tx.quantity;
  price = pos_part tx.price;
}

module _ (year_of : ℕ → ℕ) where
  -- The lots after one transaction.
  abbrev pub next_lots : ℕ → Transaction → List Lot → List Lot
  next_lots year tx lots =
      if is_buy tx.type
      then lots ++ bought_lot tx ∷ []
      else if year_of tx.traded_at == year
      then (match_lots lots (pos_part tx.quantity)).lots
      else consume_lots lots (pos_part tx.quantity)

module _ (year_of fx : ℕ → ℕ) where
  unfoldable pub sale_of : Transaction → Matched → Sale
  unfolding cost_basis
  sale_of tx m =
      let sell_value = pos_part tx.quantity * pos_part tx.price * fx tx.traded_at in
      let cost = cost_basis fx m.pieces in
      record {
        sold_at = tx.traded_at;
        quantity = pos_part tx.quantity;
        sell_value_krw = sell_value;
        cost_basis_krw = cost;
        realized_gain_krw = pos sell_value -ℤ pos cost;
        oversold = ltb 0 m.short;
      }

  -- The loop over the sorted transactions, with the lots that it ends with.
  unfoldable pub sales_fifo : ℕ → List Transaction → List Lot → List Sale × List Lot
  unfolding consume_lots match_lots sale_of
  sales_fifo year [] lots = ([], lots)
  sales_fifo year (tx ∷ rest) lots =
      let (sales, last) = sales_fifo year rest (next_lots year_of year tx lots) in
      (
        if is_buy tx.type
            then sales
            else if year_of tx.traded_at == year
            then sale_of tx (match_lots lots (pos_part tx.quantity)) ∷ sales
            else sales,
        last,
      )
