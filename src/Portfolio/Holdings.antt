-- ===== src/Portfolio/Holdings.antt =====
-- list_holdings_with_aggregates of backend/app/repositories/portfolio.py, and summary of
-- backend/app/services/transaction.py, which walks the transactions in the same way. The arithmetic of
-- Python's decimal context with a quotient in it is a parameter. User assets come in the order of
-- their creation.
use assetlog.Prelude.{
  ℕ, Bool, Option, none, some, List, [], ◌∷◌, ◌++◌, map, filter, find, any, ltb, leb, ◌==◌, ◌&&◌,
  if◌then◌else◌,
}
use assetlog.Prelude.Int.{ℤ, pos, ◌+ℤ◌, ◌-ℤ◌, ◌*ℤ◌, ltb_ℤ, leb_ℤ}
use assetlog.Prelude.Keyed.{Keyed, at_key_or, set_key}
use assetlog.Prelude.Sorting.{sort}
use assetlog.Db.{Database, Transaction, UserAsset, AssetSymbol, is_buy}
use assetlog.Trades.{chronological, list_all_for_user_asset, get_summary, get_user_asset}

-- With avg = cost / qty: sold * avg, (price - avg) * sold, and avg itself.
pub record Averages : Type 0 where
  pub flushed : ℤ → ℤ → ℤ → ℤ
  pub gained : ℤ → ℤ → ℤ → ℤ → ℤ
  pub average : ℤ → ℤ → ℤ

pub record Walk : Type 0 where
  pub qty : ℤ
  pub cost : ℤ
  pub realized : ℤ

abbrev pub start : Walk
start = record { qty = pos 0; cost = pos 0; realized = pos 0 }

module _ (dec : Averages) where
  -- One round of the loop: a SELL takes no more than there is.
  unfoldable pub walk_step : Transaction → Walk → Walk
  unfolding ◌+ℤ◌ ◌-ℤ◌ ◌*ℤ◌
  walk_step tx w =
      let sold_qty = if leb_ℤ tx.quantity w.qty then tx.quantity else w.qty in
      if is_buy tx.type
      then record w { qty = w.qty +ℤ tx.quantity; cost = w.cost +ℤ tx.quantity *ℤ tx.price }
      else if ltb_ℤ (pos 0) w.qty
      then record {
        qty = w.qty -ℤ sold_qty;
        cost = w.cost -ℤ dec.flushed w.cost w.qty sold_qty;
        realized = w.realized +ℤ dec.gained tx.price w.cost w.qty sold_qty;
      }
      else w

  unfoldable pub walk : List Transaction → Walk → Walk
  unfolding walk_step
  walk [] w = w
  walk (tx ∷ txs) w = walk txs (walk_step tx w)

-- `_load_transactions_ordered`
abbrev pub with_asset : List ℕ → Transaction → Bool
with_asset ids tx = any (λ id. id == tx.user_asset_id) ids

unfoldable pub group_by_asset :
    List Transaction → Keyed (List Transaction) → Keyed (List Transaction)
unfolding at_key_or set_key
group_by_asset [] out = out
group_by_asset (tx ∷ rows) out =
    group_by_asset rows
      (set_key tx.user_asset_id (at_key_or tx.user_asset_id [] out ++ tx ∷ []) out)

unfoldable pub load_transactions_ordered : List ℕ → Database → Keyed (List Transaction)
unfolding group_by_asset filter sort
load_transactions_ordered user_asset_ids db =
    group_by_asset (sort chronological (filter (with_asset user_asset_ids) db.transactions)) []

-- `_load_buy_lots`: `(traded_at, cost_local)`.
pub record BuyLot : Type 0 where
  pub traded_at : ℕ
  pub cost_local : ℤ

abbrev asset_then_time : Transaction → Transaction → Bool
asset_then_time a b =
    if a.user_asset_id == b.user_asset_id
    then leb a.traded_at b.traded_at
    else ltb a.user_asset_id b.user_asset_id

unfoldable pub group_lots : List Transaction → Keyed (List BuyLot) → Keyed (List BuyLot)
unfolding at_key_or set_key ◌*ℤ◌
group_lots [] out = out
group_lots (tx ∷ rows) out = group_lots rows (
    set_key tx.user_asset_id
      (at_key_or tx.user_asset_id [] out
        ++ record { traded_at = tx.traded_at; cost_local = tx.quantity *ℤ tx.price } ∷ [])
      out)

unfoldable pub load_buy_lots : List ℕ → Database → Keyed (List BuyLot)
unfolding group_lots filter sort
load_buy_lots user_asset_ids db =
    group_lots
      (sort asset_then_time
        (filter (λ tx. with_asset user_asset_ids tx && is_buy tx.type) db.transactions))
      []

pub record HoldingRow : Type 0 where
  pub user_asset_id : ℕ
  pub asset_symbol : Option AssetSymbol
  pub total_qty : ℤ
  pub total_cost : ℤ
  pub realized_pnl : ℤ
  pub buy_lots : List BuyLot

-- `UserAssetSummaryResponse`
pub record AssetSummary : Type 0 where
  pub total_bought_quantity : ℤ
  pub total_sold_quantity : ℤ
  pub remaining_quantity : ℤ
  pub avg_buy_price : ℤ
  pub total_invested : ℤ
  pub total_sold_value : ℤ
  pub realized_pnl : ℤ
  pub transaction_count : ℕ

abbrev pub ids_of : List UserAsset → List ℕ
ids_of uas = map (λ (ua : UserAsset). ua.id) uas

module _ (dec : Averages) where
  -- The row of one user asset; no cost is left where nothing is held.
  abbrev pub holding_row :
      Keyed (List Transaction) → Keyed (List BuyLot) → List AssetSymbol → UserAsset → HoldingRow
  holding_row txs_by_ua buy_lots_by_ua asset_symbols ua =
      let w = walk dec (at_key_or ua.id [] txs_by_ua) start in
      let gone = leb_ℤ w.qty (pos 0) in
      record {
        user_asset_id = ua.id;
        asset_symbol = find (λ (a : AssetSymbol). a.id == ua.asset_symbol_id) asset_symbols;
        total_qty = if gone then pos 0 else w.qty;
        total_cost = if gone then pos 0 else w.cost;
        realized_pnl = w.realized;
        buy_lots = at_key_or ua.id [] buy_lots_by_ua;
      }

  unfoldable pub list_holdings_with_aggregates : Database → List HoldingRow
  unfolding walk load_transactions_ordered load_buy_lots at_key_or find
  list_holdings_with_aggregates db =
      map
        (holding_row (load_transactions_ordered (ids_of db.user_assets) db)
          (load_buy_lots (ids_of db.user_assets) db) db.asset_symbols)
        db.user_assets

  abbrev pub summary_of : Database → UserAsset → AssetSummary
  summary_of db ua =
      let agg = get_summary ua.id db in
      let w = walk dec (list_all_for_user_asset ua.id db) start in
      record {
        total_bought_quantity = agg.total_bought_qty;
        total_sold_quantity = agg.total_sold_qty;
        remaining_quantity = w.qty;
        avg_buy_price = if ltb_ℤ (pos 0) w.qty then dec.average w.cost w.qty else pos 0;
        total_invested = agg.total_bought_cost;
        total_sold_value = agg.total_sold_value;
        realized_pnl = w.realized;
        transaction_count = agg.tx_count;
      }

  abbrev pub summary_or_none : Database → Option UserAsset → Option AssetSummary
  summary_or_none db none = none
  summary_or_none db (some ua) = some (summary_of db ua)

  -- `summary`, without the asset's currency; none where it raises NotFoundError.
  unfoldable pub summary : ℕ → Database → Option AssetSummary
  unfolding walk get_summary list_all_for_user_asset get_user_asset
  summary user_asset_id db = summary_or_none db (get_user_asset user_asset_id db)
