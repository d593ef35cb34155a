-- ===== src/Dividends/Service.antt =====
-- backend/app/services/dividend.py. An adapter is a parameter: the dividends that it gives for a
-- symbol, or none where it raises. A yield is an exact fraction.
use assetlog.Prelude.{
  ℕ, ◌+◌, String, Bool, Option, none, some, List, [], ◌∷◌, map, leb, if◌then◌else◌,
}
use assetlog.Prelude.Int.{ℤ, pos, leb_ℤ}
use assetlog.Prelude.Keyed.{Keyed, at_key, at_key_or, set_key}
use assetlog.Prelude.Sorting.{sort, text_leb}
use assetlog.Db.{Database, Dividend, AssetSymbol, AssetType, kr_stock, us_stock}
use assetlog.Portfolio.Holdings.{Averages, HoldingRow, list_holdings_with_aggregates}
use assetlog.Performance.Twr.{Ratio, quotient}
use assetlog.Symbols.Repo.{search}
use assetlog.Dividends.Repo.{
  DividendQuote, CalendarRow, insert_quotes, list_filtered, sum_by_symbol,
  list_calendar_with_symbol,
}

abbrev pub Adapter : Type 0
Adapter = String → Option (List DividendQuote)

abbrev pub store : ℕ → Option (List DividendQuote) → Database → ℕ × Database
store asset_symbol_id none db = (0, db)
store asset_symbol_id (some quotes) db = insert_quotes asset_symbol_id quotes db

unfoldable pub refresh_symbols : Adapter → List AssetSymbol → Database → ℕ × Database
unfolding insert_quotes
refresh_symbols adapter [] db = (0, db)
refresh_symbols adapter (sym ∷ symbols) db =
    let (inserted, db') = store sym.id (adapter sym.symbol) db in
    let (rest, last) = refresh_symbols adapter symbols db' in (inserted + rest, last)

-- The symbols of a type: no text is searched, so LIKE is not asked.
abbrev pub no_like : String → String → Bool
no_like text q = text_leb text q

-- `symbol_repo.search(asset_type=..., limit=1000)`
abbrev pub symbols_of : AssetType → Database → List AssetSymbol
symbols_of t db = search no_like none (some t) none 1000 0 db

unfoldable pub refresh_us_dividends : Adapter → Database → ℕ × Database
unfolding refresh_symbols search
refresh_us_dividends adapter db = refresh_symbols adapter (symbols_of us_stock db) db

unfoldable pub refresh_kr_dividends : Adapter → Database → ℕ × Database
unfolding refresh_symbols search
refresh_kr_dividends adapter db = refresh_symbols adapter (symbols_of kr_stock db) db

pub record SummaryEntry : Type 0 where
  pub asset_symbol_id : ℕ
  pub total_amount : ℤ
  pub currency : String

-- `currency_by_id.setdefault(...)`
abbrev pub set_default : ℕ → String → Option String → Keyed String → Keyed String
set_default id currency none d = set_key id currency d
set_default id currency (some old) d = d

unfoldable pub currency_by_id : List Dividend → Keyed String → Keyed String
unfolding at_key set_key
currency_by_id [] d = d
currency_by_id (row ∷ rows) d =
    currency_by_id rows
      (set_default row.asset_symbol_id row.currency (at_key row.asset_symbol_id d) d)

abbrev pub ids_given : Option ℕ → Option (List ℕ)
ids_given none = none
ids_given (some id) = some (id ∷ [])

abbrev pub by_id : ℕ × ℤ → ℕ × ℤ → Bool
by_id a b = leb a.0 b.0

unfoldable pub list_dividends :
    Option ℕ → Option ℕ → Option ℕ → Database → List Dividend × List SummaryEntry
unfolding list_filtered sum_by_symbol currency_by_id at_key_or sort
list_dividends asset_symbol_id date_from date_to db =
    let ids = ids_given asset_symbol_id in
    let rows = list_filtered ids date_from date_to db in
    let currencies = currency_by_id rows [] in
    (
      rows,
      map
          (λ (e : ℕ × ℤ). record {
            asset_symbol_id = e.0;
            total_amount = e.1;
            currency = at_key_or e.0 "" currencies;
          })
          (sort by_id (sum_by_symbol ids db)),
    )

unfoldable pub get_calendar : Option ℕ → Option ℕ → Database → List CalendarRow
unfolding list_calendar_with_symbol
get_calendar date_from date_to db = list_calendar_with_symbol date_from date_to db

pub record YieldOnCost : Type 0 where
  pub asset_symbol_id : ℕ
  pub cost_basis : ℤ
  pub total_dividend : ℤ
  pub yield_on_cost : Option Ratio

abbrev pub symbol_ids : List HoldingRow → List ℕ
symbol_ids [] = []
symbol_ids (h ∷ holdings) = elim h.asset_symbol [
  | none ↦ symbol_ids holdings
  | some sym ↦ sym.id ∷ symbol_ids holdings
]

abbrev pub yield_entry :
    Keyed ℤ → HoldingRow → Option AssetSymbol → List YieldOnCost → List YieldOnCost
yield_entry sums h none entries = entries
yield_entry sums h (some sym) entries =
    let total = at_key_or sym.id (pos 0) sums in
    record {
      asset_symbol_id = sym.id;
      cost_basis = h.total_cost;
      total_dividend = total;
      yield_on_cost =
          if leb_ℤ h.total_cost (pos 0) then none else some (quotient total h.total_cost);
    }
    ∷ entries

unfoldable pub entries_of : Keyed ℤ → List HoldingRow → List YieldOnCost
unfolding at_key_or
entries_of sums [] = []
entries_of sums (h ∷ holdings) = yield_entry sums h h.asset_symbol (entries_of sums holdings)

unfoldable pub get_yield_on_cost : Averages → Database → List YieldOnCost
unfolding list_holdings_with_aggregates sum_by_symbol entries_of
get_yield_on_cost dec db =
    let holdings = list_holdings_with_aggregates dec db in
    entries_of (sum_by_symbol (some (symbol_ids holdings)) db) holdings
