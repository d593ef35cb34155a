-- ===== src/Symbols/Service.antt =====
-- backend/app/services/symbol.py. An adapter's search is none where it raises; an asset type may
-- have no adapter. A registration is none where ConflictError is raised.
use assetlog.Prelude.{
  ℕ, ◌-◌, ◌*◌, String, Bool, true, false, Option, none, some, List, [], ◌∷◌, ◌++◌, filter, any,
  take, length, not, ◌&&◌, ◌||◌, ◌==◌, if◌then◌else◌,
}
use assetlog.Db.{Database, AssetSymbol, AssetType}
use assetlog.Sync.Symbols.{is_symbol}
use assetlog.Symbols.Text.{strip}
use assetlog.Symbols.Repo.{
  SymbolCandidate, given, or_empty, get_by_triple, search, create_symbol, upsert_many,
}

-- The search of an adapter: for a query and a limit.
abbrev pub Adapters : Type 0
Adapters = AssetType → Option (String → ℕ → Option (List SymbolCandidate))

abbrev pub answered : Option (List SymbolCandidate) → List SymbolCandidate
answered none = []
answered (some candidates) = candidates

abbrev pub asked :
    Option (String → ℕ → Option (List SymbolCandidate)) → String → ℕ → List SymbolCandidate
asked none q limit = []
asked (some adapter) q limit = answered (adapter q limit)

abbrev pub candidates_of : Adapters → Option AssetType → String → ℕ → List SymbolCandidate
candidates_of adapters none q limit = []
candidates_of adapters (some t) q limit = asked (adapters t) q limit

-- `(str(c.asset_type), c.symbol, c.exchange) in seen`
abbrev pub same_triple : AssetSymbol → AssetSymbol → Bool
same_triple a b = is_symbol b.asset_type b.symbol b.exchange a

abbrev pub among : List AssetSymbol → SymbolCandidate → Bool
among hits c = any (is_symbol c.asset_type c.symbol c.exchange) hits

-- The loop over the persisted rows; `seen` is the triples of the list.
unfoldable pub merged : List AssetSymbol → List AssetSymbol → List AssetSymbol
merged acc [] = acc
merged acc (row ∷ rows) =
    merged (if any (λ h. same_triple h row) acc then acc else acc ++ row ∷ []) rows

abbrev pub type_given : Option AssetType → Bool
type_given none = false
type_given (some t) = true

abbrev pub none_left {ℓ} : {A : Type ℓ} → List A → Bool
none_left [] = true
none_left (x ∷ xs) = false

unfoldable pub search_symbols :
    (String → String → Bool)
    → Adapters
    → Option String
    → Option AssetType
    → Option String
    → ℕ
    → ℕ
    → Database
    → List AssetSymbol × Database
unfolding search upsert_many merged strip filter
search_symbols ilike adapters q asset_type exchange limit offset db =
    let db_hits = search ilike q asset_type exchange limit offset db in
    let remaining = limit - length db_hits in
    let candidates = candidates_of adapters asset_type (strip (or_empty q)) (remaining * 2) in
    let new_candidates = filter (λ c. not (among db_hits c)) candidates in
    let (persisted, db') = upsert_many new_candidates db in
    if not (given q && type_given asset_type) || (remaining == 0 || none_left new_candidates)
    then (db_hits, db)
    else (take limit (merged db_hits persisted), db')

abbrev pub registered :
    SymbolCandidate → Option AssetSymbol → Database → Option AssetSymbol × Database
registered c none db = let (row, db') = create_symbol c db in (some row, db')
registered c (some row) db = (none, db)

unfoldable pub register : SymbolCandidate → Database → Option AssetSymbol × Database
unfolding get_by_triple create_symbol
register c db = registered c (get_by_triple c.asset_type c.symbol c.exchange db) db
