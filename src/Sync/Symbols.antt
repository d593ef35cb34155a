-- ===== src/Sync/Symbols.antt =====
-- The symbol and the holding of an imported row: found, or created. Resolving a symbol or a name
-- asks the network and the caches of backend/app/services/isin_resolver.py, kr_name_resolver.py and
-- crypto_name_resolver.py, which are a parameter here.
use assetlog.Prelude.{
  ℕ, suc, String, Bool, true, false, not, ◌&&◌, Option, none, some, [], ◌∷◌, ◌++◌, find, ◌==◌,
  ◌==ₛ◌, if◌then◌else◌,
}
use assetlog.Prelude.Table.{set_row}
use assetlog.Db.{AssetSymbol, AssetType, crypto, kr_stock, us_stock, UserAsset, Action, ok}

-- `resolve_symbol` is the resolved code of a raw ISIN or a displayed name, if there is one;
-- `display_name` is the name of a crypto ticker, if one is known.
pub record Resolvers : Type 0 where
  pub resolve_symbol : AssetType → String → Option String
  pub display_name : String → Option String

abbrev pub same_type : AssetType → AssetType → Bool
same_type crypto crypto = true
same_type kr_stock kr_stock = true
same_type us_stock us_stock = true
same_type _ _ = false

abbrev pub is_symbol : AssetType → String → String → AssetSymbol → Bool
is_symbol t symbol exchange s =
    same_type s.asset_type t && (s.symbol ==ₛ symbol && s.exchange ==ₛ exchange)

-- `name or …`
abbrev or_text : Option String → String → String
or_text none t = t
or_text (some s) t = if s ==ₛ "" then t else s

abbrev is_given : Option String → Bool
is_given none = false
is_given (some s) = not (s ==ₛ "")

abbrev pub resolved : Resolvers → AssetType → String → String
resolved env t symbol = elim t [
  | crypto ↦ symbol
  | kr_stock ↦ or_text (env.resolve_symbol kr_stock symbol) symbol
  | us_stock ↦ or_text (env.resolve_symbol us_stock symbol) symbol
]

abbrev named : Resolvers → AssetType → String → Option String → Option String
named env t symbol name = elim t [
  | crypto ↦
      if is_given name
      then name
      else (if is_given (env.display_name symbol) then env.display_name symbol else name)
  | kr_stock ↦ name
  | us_stock ↦ name
]

-- A fallback name, one equal to the symbol, gives way to a real one.
abbrev upgraded : Option String → AssetSymbol → AssetSymbol
upgraded name s =
    if is_given name && (s.name ==ₛ s.symbol && not (or_text name s.symbol ==ₛ s.symbol))
    then record s { name = or_text name s.symbol }
    else s

-- After the SELECT: the row that it found, or a new one.
abbrev pub or_create_symbol :
    Option AssetSymbol → String → AssetType → String → String → Option String → Action AssetSymbol
or_create_symbol (some existing) symbol t exchange currency name db = (
  ok (upgraded name existing),
  record db {
    asset_symbols =
        set_row (λ (s : AssetSymbol). s.id) existing.id (upgraded name) db.asset_symbols;
  },
)
or_create_symbol none symbol t exchange currency name db =
    let new_symbol : AssetSymbol = record {
      id = db.next_asset_symbol;
      asset_type = t;
      symbol = symbol;
      exchange = exchange;
      name = or_text name symbol;
      currency = currency;
    } in
    (
      ok new_symbol,
      record db {
        asset_symbols = db.asset_symbols ++ new_symbol ∷ [];
        next_asset_symbol = suc db.next_asset_symbol;
      },
    )

unfoldable pub get_or_create_symbol_by_attrs :
    Resolvers → String → AssetType → String → String → Option String → Action AssetSymbol
unfolding find
get_or_create_symbol_by_attrs env raw t exchange currency name db =
    let symbol = resolved env t raw in
    or_create_symbol (find (is_symbol t symbol exchange) db.asset_symbols) symbol t exchange
      currency (named env t symbol name) db

abbrev pub or_create_user_asset : Option UserAsset → ℕ → Action UserAsset
or_create_user_asset (some existing) asset_symbol_id db = (ok existing, db)
or_create_user_asset none asset_symbol_id db =
    let new_asset : UserAsset = record {
      id = db.next_user_asset;
      asset_symbol_id = asset_symbol_id;
    } in
    (
      ok new_asset,
      record db {
        user_assets = db.user_assets ++ new_asset ∷ [];
        next_user_asset = suc db.next_user_asset;
      },
    )

unfoldable pub get_or_create_user_asset : ℕ → Action UserAsset
unfolding find
get_or_create_user_asset asset_symbol_id db =
    or_create_user_asset
      (find (λ (ua : UserAsset). ua.asset_symbol_id == asset_symbol_id) db.user_assets)
      asset_symbol_id db
