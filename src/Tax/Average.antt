-- ===== src/Tax/Average.antt =====
-- The weighted average of backend/app/services/tax_kr.py, the FX rate that it and the matching use, and
-- the report. A quotient is a parameter. A quantity times a price times a rate is in 10^-24 won, and
-- an average unit cost in 10^-14.
use assetlog.Prelude.{
  ℕ, String, Bool, true, false, Option, none, some, List, [], ◌∷◌, ◌++◌, map, ◌==◌, ◌==ₛ◌, ◌||◌,
  ◌<◌, ◌≡◌, ◌≢◌, refl, arith, eq_iff, if◌then◌else◌,
}
use assetlog.Prelude.Int.{ℤ, pos, pos_part, ◌+ℤ◌, ◌-ℤ◌, ◌*ℤ◌, ltb_ℤ, leb_ℤ}
use assetlog.Prelude.Sums.{sum_of}
use assetlog.Prelude.Sorting.{sort, by_key}
use assetlog.Db.{Database, Transaction, UserAsset, AssetSymbol, is_buy}
use assetlog.Trades.{list_all_for_user_asset}
use assetlog.Fx.Service.{
  FxStore, Adapter, supported_currencies, refresh_all, convert, convert_at, one,
}
use assetlog.Fx.Refresh.{offer}
use assetlog.Fx.Unique.{UniqueKeys}
use assetlog.Fx.TradeDate.{convert_at-refresh_all}
use assetlog.Tax.Lots.{Sale, sales_fifo}

-- `_fx_at_or_warn`, with whether it warns.
abbrev or_latest : Option ℤ → Option ℤ → ℤ × Bool
or_latest (some rate) latest = (rate, false)
or_latest none (some rate) = (rate, true)
or_latest none none = (one, true)

unfoldable pub fx_at_or_warn : FxStore → String → ℕ → ℤ × Bool
unfolding convert convert_at
fx_at_or_warn fx currency at =
    if currency ==ₛ "KRW"
    then (one, false)
    else or_latest (convert_at (pos 1) currency "KRW" at fx) (convert (pos 1) currency "KRW" fx)

-- `TaxableSaleEntry`, without the names of the symbol, and its warning.
pub record TaxableSale : Type 0 where
  pub sold_at : ℕ
  pub quantity : ℤ
  pub sell_value_krw : ℤ
  pub cost_basis_krw : ℤ
  pub realized_gain_krw : ℤ
  pub oversold : Bool

module _ (year_of : ℕ → ℕ) (fx : ℕ → ℤ) (divide : ℤ → ℤ → ℤ) where
  abbrev averaged : Transaction → ℤ → ℤ → ℤ
  averaged tx total_qty avg_unit_krw =
      let new_qty = total_qty +ℤ tx.quantity in
      if ltb_ℤ (pos 0) new_qty
      then divide (avg_unit_krw *ℤ total_qty +ℤ tx.quantity *ℤ tx.price *ℤ fx tx.traded_at) new_qty
      else avg_unit_krw

  abbrev average_sale : Transaction → ℤ → ℤ → TaxableSale
  average_sale tx total_qty avg_unit_krw =
      let value = tx.quantity *ℤ tx.price *ℤ fx tx.traded_at in
      let cost = tx.quantity *ℤ avg_unit_krw in
      record {
        sold_at = tx.traded_at;
        quantity = tx.quantity;
        sell_value_krw = value;
        cost_basis_krw = cost;
        realized_gain_krw = value -ℤ cost;
        oversold = leb_ℤ total_qty (pos 0) || ltb_ℤ total_qty tx.quantity;
      }

  -- `_sales_average`, from the quantity and the average on.
  unfoldable pub sales_average : ℕ → List Transaction → ℤ → ℤ → List TaxableSale
  unfolding ◌+ℤ◌ ◌-ℤ◌ ◌*ℤ◌
  sales_average year [] total_qty avg_unit_krw = []
  sales_average year (tx ∷ txs) total_qty avg_unit_krw =
      let buys = is_buy tx.type in
      let rest =
        sales_average year txs (if buys then total_qty +ℤ tx.quantity else total_qty -ℤ tx.quantity)
          (if buys then averaged tx total_qty avg_unit_krw else avg_unit_krw) in
      if buys
      then rest
      else if year_of tx.traded_at == year
      then average_sale tx total_qty avg_unit_krw ∷ rest
      else rest

pub data CostMethod : Type 0 where
  average fifo : CostMethod

-- A sale that was matched with lots, as an entry of the report.
abbrev of_sale : Sale → TaxableSale
of_sale s = record {
  sold_at = s.sold_at;
  quantity = pos s.quantity;
  sell_value_krw = pos s.sell_value_krw;
  cost_basis_krw = pos s.cost_basis_krw;
  realized_gain_krw = s.realized_gain_krw;
  oversold = s.oversold;
}

-- `CapitalGainsTaxResponse`, without what it repeats of the request. A rate is in 10^-4.
pub record CapitalGains : Type 0 where
  pub sales : List TaxableSale
  pub gross_gain_krw : ℤ
  pub taxable_gain_krw : ℤ
  pub estimated_tax_krw : ℤ

module _ (year_of : ℕ → ℕ) (divide : ℤ → ℤ → ℤ) (store : FxStore) where
  abbrev rate_of : String → ℕ → ℤ
  rate_of currency at = (fx_at_or_warn store currency at).0

  -- The user asset of a symbol and its transactions, in the order of their times.
  abbrev asset_of : ℕ → List UserAsset → Option UserAsset
  asset_of symbol_id [] = none
  asset_of symbol_id (ua ∷ uas) =
      let later = asset_of symbol_id uas in
      if ua.asset_symbol_id == symbol_id then some ua else later

  abbrev transactions_of : Database → Option UserAsset → List Transaction
  transactions_of db none = []
  transactions_of db (some ua) =
      sort (by_key (λ (tx : Transaction). tx.traded_at)) (list_all_for_user_asset ua.id db)

  abbrev sales_by : CostMethod → ℕ → String → List Transaction → List TaxableSale
  sales_by fifo year currency txs =
      map of_sale (sales_fifo year_of (λ at. pos_part (rate_of currency at)) year txs []).0
  sales_by average year currency txs =
      sales_average year_of (rate_of currency) divide year txs (pos 0) (pos 0)

  unfoldable pub sales_for_symbol : CostMethod → ℕ → Database → AssetSymbol → List TaxableSale
  unfolding sales_fifo sales_average fx_at_or_warn sort list_all_for_user_asset
  sales_for_symbol method year db sym =
      sales_by method year sym.currency (transactions_of db (asset_of sym.id db.user_assets))

  abbrev all_sales : CostMethod → ℕ → Database → List AssetSymbol → List TaxableSale
  all_sales method year db [] = []
  all_sales method year db (sym ∷ symbols) =
      sales_for_symbol method year db sym ++ all_sales method year db symbols

  -- `get_capital_gains`, of the foreign symbols.
  unfoldable pub get_capital_gains :
      CostMethod → ℕ → ℤ → ℤ → Database → List AssetSymbol → CapitalGains
  unfolding sales_for_symbol sum_of ◌-ℤ◌ ◌*ℤ◌
  get_capital_gains method year deduction_krw tax_rate db foreign_symbols =
      let sales = all_sales method year db foreign_symbols in
      let gross = sum_of (λ (s : TaxableSale). s.realized_gain_krw) sales in
      let taxable =
        if ltb_ℤ (pos 0) (gross -ℤ deduction_krw) then gross -ℤ deduction_krw else pos 0 in
      record {
        sales = sales;
        gross_gain_krw = gross;
        taxable_gain_krw = taxable;
        estimated_tax_krw = taxable *ℤ tax_rate;
      }

not_won : (currency : String) → currency ≢ "KRW" → (currency ==ₛ "KRW") ≡ false
not_won currency foreign = ground (arith, eq_iff currency "KRW", foreign)

-- After a refresh of the rates, every trade before it is valued at the refresh's rate, with a warning:
-- the rate of its own date is never used.
pub fx_at_or_warn-refresh_all :
    (adapter : Adapter) (currency : String) (rate : ℤ) (at now : ℕ) (fx : FxStore)
    → UniqueKeys fx
    → currency ≢ "KRW"
    → offer adapter supported_currencies currency "KRW" ≡ some rate
    → at < now
    → fx_at_or_warn (refresh_all adapter now fx).1 currency at ≡ (pos 1 *ℤ rate, true)
unfolding fx_at_or_warn
fx_at_or_warn-refresh_all adapter currency rate at now fx unique foreign given early =
    let (latest, dated) =
      convert_at-refresh_all adapter currency "KRW" rate (pos 1) at now fx unique foreign given
        early in
    rw (latest, dated, not_won currency foreign) refl
