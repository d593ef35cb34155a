-- ===== src/Prices/Service.antt =====
-- backend/app/services/price_refresh.py with backend/app/domain/price_refresh.py,
-- backend/app/repositories/price_point.py and the two queries of
-- backend/app/repositories/asset_symbol.py that it uses. The adapters are a parameter. A price point
-- is without its currency; texts of errors and elapsed times are left out.
use assetlog.Prelude.{
  ℕ, ◌/◌, String, Bool, Option, some, List, [], ◌∷◌, ◌++◌, map, length, ◌&&◌, ◌==◌, if◌then◌else◌,
}
use assetlog.Prelude.Dict.{Dict, get_or, insert}
use assetlog.Db.{AssetType, crypto, kr_stock, us_stock}
use assetlog.History.Rows.{PricePoint}

pub record SymbolRef : Type 0 where
  pub asset_type : AssetType
  pub symbol : String
  pub exchange : String
  pub asset_symbol_id : ℕ

pub record PriceQuote : Type 0 where
  pub ref : SymbolRef
  pub price : ℕ
  pub fetched_at : ℕ

pub record FetchFailure : Type 0 where
  pub ref : SymbolRef
  pub error_class : String

pub record FetchBatchResult : Type 0 where
  pub successes : List PriceQuote
  pub failures : List FetchFailure

pub record RefreshResult : Type 0 where
  pub total : ℕ
  pub success : ℕ
  pub failed : ℕ
  pub failures : List FetchFailure

-- What `gather` has of one adapter: its answer, or the class of what it raised.
pub data Outcome : Type 0 where
  raised : String → Outcome
  fetched : FetchBatchResult → Outcome

-- An asset symbol's row, with its cached price.
pub record CachedSymbol : Type 0 where
  pub ref : SymbolRef
  pub last_price : Option ℕ
  pub last_price_refreshed_at : Option ℕ

pub record PriceStore : Type 0 where
  pub asset_symbols : List CachedSymbol
  pub price_points : List PricePoint

-- `str(ref.asset_type)`
abbrev pub type_text : AssetType → String
type_text crypto = "crypto"
type_text kr_stock = "kr_stock"
type_text us_stock = "us_stock"

-- `_group_by_type`
unfoldable pub group_by_type : List SymbolRef → Dict (List SymbolRef) → Dict (List SymbolRef)
unfolding get_or insert
group_by_type [] grouped = grouped
group_by_type (ref ∷ targets) grouped =
    let key = type_text ref.asset_type in
    group_by_type targets (insert key (get_or key [] grouped ++ ref ∷ []) grouped)

abbrev pub Adapters : Type 0
Adapters = String → List SymbolRef → Outcome

abbrev pub failure : String → SymbolRef → FetchFailure
failure error_class ref = record { ref = ref; error_class = error_class }

abbrev pub no_batch : FetchBatchResult
no_batch = record { successes = []; failures = [] }

-- An adapter that crashed fails for all of its symbols.
abbrev pub batch_of : Outcome → List SymbolRef → FetchBatchResult
batch_of (fetched batch) refs = batch
batch_of (raised error_class) refs = record {
  successes = [];
  failures = map (failure error_class) refs;
}

abbrev pub joined : FetchBatchResult → FetchBatchResult → FetchBatchResult
joined a b = record { successes = a.successes ++ b.successes; failures = a.failures ++ b.failures }

-- `all_successes` and `all_failures`
unfoldable pub run_adapters : Adapters → Dict (List SymbolRef) → FetchBatchResult
run_adapters adapters [] = no_batch
run_adapters adapters ((asset_type, refs) ∷ grouped) =
    joined (batch_of (adapters asset_type refs) refs) (run_adapters adapters grouped)

-- `DATE(fetched_at)`, the generated column of the unique key.
abbrev pub day_of : ℕ → ℕ
day_of t = t / 86_400_000_000

abbrev pub same_day : ℕ → ℕ → PricePoint → Bool
same_day id day p = (p.asset_symbol_id == id) && (day_of p.fetched_at == day)

abbrev pub point_of : PriceQuote → PricePoint
point_of q = record {
  asset_symbol_id = q.ref.asset_symbol_id;
  fetched_at = q.fetched_at;
  price = q.price;
}

-- INSERT ... ON DUPLICATE KEY UPDATE price, fetched_at.
unfoldable pub upsert_point : PriceQuote → List PricePoint → List PricePoint
upsert_point q [] = point_of q ∷ []
upsert_point q (p ∷ points) =
    let rest = upsert_point q points in
    if same_day q.ref.asset_symbol_id (day_of q.fetched_at) p
    then record p { price = q.price; fetched_at = q.fetched_at } ∷ points
    else p ∷ rest

unfoldable pub bulk_insert : List PriceQuote → List PricePoint → List PricePoint
unfolding upsert_point
bulk_insert [] points = points
bulk_insert (q ∷ quotes) points = bulk_insert quotes (upsert_point q points)

abbrev pub cached : PriceQuote → CachedSymbol → CachedSymbol
cached q row =
    if row.ref.asset_symbol_id == q.ref.asset_symbol_id
    then record row { last_price = some q.price; last_price_refreshed_at = some q.fetched_at }
    else row

unfoldable pub bulk_update_cache : List PriceQuote → List CachedSymbol → List CachedSymbol
bulk_update_cache [] rows = rows
bulk_update_cache (q ∷ quotes) rows = bulk_update_cache quotes (map (cached q) rows)

unfoldable pub list_distinct_refresh_targets : PriceStore → List SymbolRef
list_distinct_refresh_targets s = map (λ (row : CachedSymbol). row.ref) s.asset_symbols

unfoldable pub refresh_all_prices : Adapters → PriceStore → RefreshResult × PriceStore
unfolding list_distinct_refresh_targets group_by_type run_adapters bulk_insert bulk_update_cache
refresh_all_prices adapters s =
    let targets = list_distinct_refresh_targets s in
    let batch = run_adapters adapters (group_by_type targets []) in
    (
      record {
        total = length targets;
        success = length batch.successes;
        failed = length batch.failures;
        failures = batch.failures;
      },
      record {
        asset_symbols = bulk_update_cache batch.successes s.asset_symbols;
        price_points = bulk_insert batch.successes s.price_points;
      },
    )
