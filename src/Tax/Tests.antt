-- ===== src/Tax/Tests.antt =====
-- Tests of the matching, and each property at an input.
use assetlog.Prelude.{
  ℕ, ◌*◌, ◌+◌, ◌-◌, ◌/◌, ◌≡◌, min, refl, none, List, [], ◌∷◌, false, ltb, if◌then◌else◌, arith,
}
use assetlog.Prelude.Int.{ℤ, pos, negsuc, pos_part, ◌+ℤ◌, ◌-ℤ◌, ◌*ℤ◌}
use assetlog.Db.{Transaction, buy, sell}
use assetlog.Trades.{TransactionData, of_data}
use assetlog.Tax.Lots.{Lot, consume_lots, match_lots}
use assetlog.Tax.Average.{sales_average}
use assetlog.Tax.Fifo.{shares, share_at, match_lots_lem, NeverShort}

abbrev lot : ℕ → ℕ → Lot
lot at qty = record { traded_at = at; qty = qty; price = 10 * at }

abbrev queue : List Lot
queue = lot 1 3 ∷ lot 2 5 ∷ []

oldest_first :
    match_lots queue 4 ≡ record { lots = lot 2 4 ∷ []; pieces = lot 1 3 ∷ lot 2 1 ∷ []; short = 0 }
unfolding match_lots
oldest_first = refl

match_lots_lem_example :
    let m = match_lots queue 4 in
    (shares m.pieces ≡ min 4 (shares queue))
    × (m.short ≡ 4 - shares queue)
    × (shares m.lots ≡ shares queue - 4)
    × ((n : ℕ) → share_at n m.pieces ≡ (if ltb n 4 then share_at n queue else none))
    × ((n : ℕ) → share_at n m.lots ≡ share_at (4 + n) queue)
    × (consume_lots queue 4 ≡ m.lots)
match_lots_lem_example = match_lots_lem queue 4

abbrev order : TransactionData
order = record {
  type = buy;
  quantity = pos 5;
  price = pos 7;
  traded_at = 20;
  memo = none;
  tag = none;
}

-- A purchase, a sale in the next year, and one a year later.
abbrev history : List Transaction
history =
    of_data 1 7 order
    ∷ of_data 2 7 (record order { type = sell; quantity = pos 2; traded_at = 30 })
    ∷ of_data 3 7 (record order { type = sell; quantity = pos 3; traded_at = 40 })
    ∷ []

abbrev decade : ℕ → ℕ
decade t = t / 10

history-NeverShort : NeverShort (shares []) history
unfolding shares
history-NeverShort = (λ e. absurd (grind arith), (λ e. omega arith, (λ e. omega arith, tt)))

-- A sale of 5 without any, a purchase of 10 at 200, and a sale of 5: its cost is 400 for each.
abbrev oversold_first : List Transaction
oversold_first =
    of_data 1 7 (record order { type = sell; traded_at = 30 })
    ∷ of_data 2 7 (record order { quantity = pos 10; price = pos 200; traded_at = 32 })
    ∷ of_data 3 7 (record order { type = sell; price = pos 300; traded_at = 44 })
    ∷ []

abbrev whole : ℤ → ℤ → ℤ
whole a b = pos (pos_part a / pos_part b)

twice_the_cost :
    sales_average decade (λ t. pos 1) whole 4 oversold_first (pos 0) (pos 0)
    ≡ record {
      sold_at = 44;
      quantity = pos 5;
      sell_value_krw = pos 1_500;
      cost_basis_krw = pos 2_000;
      realized_gain_krw = negsuc 499;
      oversold = false;
    }
      ∷ []
unfolding sales_average ◌+ℤ◌ ◌-ℤ◌ ◌*ℤ◌
twice_the_cost = refl
