-- ===== src/Symbols/Repo.antt =====
-- backend/app/repositories/asset_symbol.py. The database's case-insensitive LIKE is a parameter;
-- `last_synced_at` is left out.
use assetlog.Prelude.{
  ℕ, suc, String, Bool, true, false, Option, none, some, List, [], ◌∷◌, ◌++◌, filter, find, take,
  drop, not, ◌&&◌, ◌||◌, ◌==ₛ◌, if◌then◌else◌,
}
use assetlog.Prelude.Sorting.{sort, text_leb}
use assetlog.Prelude.Table.{set_row}
use assetlog.Db.{Database, AssetSymbol, AssetType}
use assetlog.Sync.Symbols.{same_type, is_symbol}
use assetlog.Symbols.Text.{strip}

-- domain/symbol_search.py
pub record SymbolCandidate : Type 0 where
  pub asset_type : AssetType
  pub symbol : String
  pub name : String
  pub exchange : String
  pub currency : String

unfoldable pub get_by_triple : AssetType → String → String → Database → Option AssetSymbol
unfolding find
get_by_triple asset_type symbol exchange db =
    find (is_symbol asset_type symbol exchange) db.asset_symbols

-- `x is not None and x.strip()`
abbrev pub given : Option String → Bool
given none = false
given (some s) = not (strip s ==ₛ "")

abbrev pub or_empty : Option String → String
or_empty none = ""
or_empty (some s) = s

abbrev pub type_fits : Option AssetType → AssetSymbol → Bool
type_fits none row = true
type_fits (some t) row = same_type row.asset_type t

abbrev pub by_symbol : AssetSymbol → AssetSymbol → Bool
by_symbol a b = text_leb a.symbol b.symbol

-- `ilike text q`: the text is LIKE %q%.
module _ (ilike : String → String → Bool) where
  abbrev pub matches : Option String → Option AssetType → Option String → AssetSymbol → Bool
  matches q asset_type exchange row =
      (if given q
        then ilike row.symbol (strip (or_empty q)) || ilike row.name (strip (or_empty q))
        else true)
      && (type_fits asset_type row
          && (if given exchange then row.exchange ==ₛ strip (or_empty exchange) else true))

  unfoldable pub search :
      Option String → Option AssetType → Option String → ℕ → ℕ → Database → List AssetSymbol
  unfolding strip filter sort
  search q asset_type exchange limit offset db =
      take limit
        (drop offset (sort by_symbol (filter (matches q asset_type exchange) db.asset_symbols)))

unfoldable pub list_all : Database → List AssetSymbol
unfolding sort
list_all db = sort by_symbol db.asset_symbols

abbrev pub new_symbol : ℕ → SymbolCandidate → AssetSymbol
new_symbol id c = record {
  id = id;
  asset_type = c.asset_type;
  symbol = c.symbol;
  exchange = c.exchange;
  name = c.name;
  currency = c.currency;
}

unfoldable pub create_symbol : SymbolCandidate → Database → AssetSymbol × Database
create_symbol c db = (
  new_symbol db.next_asset_symbol c,
  record db {
    asset_symbols = db.asset_symbols ++ new_symbol db.next_asset_symbol c ∷ [];
    next_asset_symbol = suc db.next_asset_symbol;
  },
)

-- One row of the INSERT: on a duplicate key it updates the row that is there.
abbrev pub insert_or_update : SymbolCandidate → Option AssetSymbol → Database → Database
insert_or_update c none db = (create_symbol c db).1
insert_or_update c (some row) db = record db {
  asset_symbols =
      set_row (λ (s : AssetSymbol). s.id) row.id
        (λ s. record s { name = c.name; currency = c.currency }) db.asset_symbols;
}

unfoldable pub upsert_all : List SymbolCandidate → Database → Database
unfolding get_by_triple create_symbol
upsert_all [] db = db
upsert_all (c ∷ cs) db =
    upsert_all cs (insert_or_update c (get_by_triple c.asset_type c.symbol c.exchange db) db)

abbrev pub prepend : Option AssetSymbol → List AssetSymbol → List AssetSymbol
prepend none rows = rows
prepend (some row) rows = row ∷ rows

-- The rows of the candidates, in their order.
unfoldable pub refetched : List SymbolCandidate → Database → List AssetSymbol
unfolding get_by_triple
refetched [] db = []
refetched (c ∷ cs) db =
    prepend (get_by_triple c.asset_type c.symbol c.exchange db) (refetched cs db)

unfoldable pub upsert_many : List SymbolCandidate → Database → List AssetSymbol × Database
unfolding upsert_all refetched
upsert_many candidates db = let db' = upsert_all candidates db in (refetched candidates db', db')
