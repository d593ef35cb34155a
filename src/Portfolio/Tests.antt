-- ===== src/Portfolio/Tests.antt =====
-- Tests of the holdings, and each property at an input.
use assetlog.Prelude.{◌*◌, ◌-◌, ◌≡◌, refl, none, some, [], ◌∷◌, find, filter, arith}
use assetlog.Prelude.Int.{pos, ◌+ℤ◌, ◌-ℤ◌, ◌*ℤ◌, pos_part}
use assetlog.Prelude.Sums.{sum_of}
use assetlog.Db.{Database, empty_database, buy, sell}
use assetlog.Trades.{TransactionData, of_data, list_all_for_user_asset, get_user_asset, get_summary}
use assetlog.Portfolio.Holdings.{
  Averages, HoldingRow, list_holdings_with_aggregates, AssetSummary, summary,
}
use assetlog.Portfolio.Agreement.{of_asset, NeverShort, summary-list_holdings}
use assetlog.Portfolio.Split.{compute_price_fx_split, weighted_avg_fx_buy}

abbrev bought_4 : TransactionData
bought_4 = record {
  type = buy;
  quantity = pos 4;
  price = pos 3;
  traded_at = 6;
  memo = none;
  tag = none;
}

-- A purchase of 4 at 3, and a sale of 1 at 5 at the same time, which has the lower id.
abbrev shelf : Database
shelf = record empty_database {
  user_assets = record { id = 7; asset_symbol_id = 1 } ∷ [];
  transactions =
      of_data 1 7 (record bought_4 { type = sell; quantity = pos 1; price = pos 5 })
      ∷ of_data 2 7 bought_4
      ∷ [];
  next_transaction = 3;
}

-- Averages without a remainder.
abbrev exact : Averages
exact = record {
  flushed = λ cost qty sold. pos (3 * pos_part sold);
  gained = λ price cost qty sold. pos ((pos_part price - 3) * pos_part sold);
  average = λ cost qty. pos 3;
}

abbrev row_7 : HoldingRow
row_7 = record {
  user_asset_id = 7;
  asset_symbol = none;
  total_qty = pos 3;
  total_cost = pos 9;
  realized_pnl = pos 2;
  buy_lots = record { traded_at = 6; cost_local = pos 12 } ∷ [];
}

held : list_holdings_with_aggregates exact shelf ≡ row_7 ∷ []
unfolding list_holdings_with_aggregates ◌+ℤ◌ ◌-ℤ◌ ◌*ℤ◌
held = refl

found : find (of_asset 7) (list_holdings_with_aggregates exact shelf) ≡ some row_7
unfolding list_holdings_with_aggregates ◌+ℤ◌ ◌-ℤ◌ ◌*ℤ◌ find
found = refl

summary-list_holdings_example :
    (s : AssetSummary) × (summary exact 7 shelf ≡ some s)
    × (s.remaining_quantity ≡ row_7.total_qty)
    × (s.realized_pnl ≡ row_7.realized_pnl)
summary-list_holdings_example =
    summary-list_holdings exact 7 shelf row_7 (omega arith, (omega arith, tt)) found

abbrev summary_7 : AssetSummary
summary_7 = record {
  total_bought_quantity = pos 4;
  total_sold_quantity = pos 1;
  remaining_quantity = pos 3;
  avg_buy_price = pos 3;
  total_invested = pos 12;
  total_sold_value = pos 5;
  realized_pnl = pos 2;
  transaction_count = 2;
}

summarised : summary exact 7 shelf ≡ some summary_7
unfolding summary get_user_asset get_summary ◌+ℤ◌ ◌-ℤ◌ ◌*ℤ◌ find sum_of
summarised = refl

covered : NeverShort (pos 0) (list_all_for_user_asset 7 shelf)
unfolding list_all_for_user_asset filter ◌+ℤ◌ ◌-ℤ◌
covered = (omega arith, (omega arith, tt))

-- A gain of 20 at 1,300 won to the dollar, with a cost of 100 that was paid at 1,200.
gain : compute_price_fx_split (pos 20) (pos 100) (pos 1_300) (pos 1_200) ≡ (pos 26_000, pos 10_000)
unfolding compute_price_fx_split ◌-ℤ◌ ◌*ℤ◌
gain = refl

no_rate : weighted_avg_fx_buy (λ a b. a) row_7.buy_lots ((6, none) ∷ []) ≡ none
unfolding weighted_avg_fx_buy
no_rate = refl
