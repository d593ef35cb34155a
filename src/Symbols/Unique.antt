-- ===== src/Symbols/Unique.antt =====
-- The unique key of the symbols, and what a search gives.
use assetlog.Prelude.{
  ℕ, ◌-◌, ◌≤◌, ◌≡◌, refl, ◌∙◌, String, Bool, true, false, not, Option, none, some, List, [], ◌∷◌,
  ◌++◌, All, map, filter, find, any, length, ◌==◌, ◌==ₛ◌, ◌&&◌, ◌||◌, eq_iff, text_same, arith, inl,
  inr, Bool-cases, Option-cases, if◌then◌else◌, ◌*◌,
}
use assetlog.Db.{Database, AssetSymbol, AssetType, crypto, kr_stock, us_stock}
use assetlog.Sync.Symbols.{same_type, is_symbol}
use assetlog.Symbols.Pairwise.{
  find-none, any-none, length-take, Unlike, Unlike-filter, Unlike-take, Unlike-drop, Unlike-append,
  sort-Unlike,
}
use assetlog.Symbols.Text.{strip}
use assetlog.Symbols.Repo.{
  SymbolCandidate, given, or_empty, matches, by_symbol, new_symbol, get_by_triple, search,
  create_symbol, insert_or_update, upsert_all, upsert_many,
}
use assetlog.Symbols.Service.{
  Adapters, candidates_of, same_triple, among, merged, type_given, none_left, search_symbols,
  register,
}

-- UNIQUE (asset_type, symbol, exchange)
abbrev pub UniqueTriples : List AssetSymbol → Type 0
UniqueTriples rows = Unlike same_triple rows

same_type_comm : (a b : AssetType) → same_type a b ≡ same_type b a
same_type_comm crypto crypto = refl
same_type_comm crypto kr_stock = refl
same_type_comm crypto us_stock = refl
same_type_comm kr_stock crypto = refl
same_type_comm kr_stock kr_stock = refl
same_type_comm kr_stock us_stock = refl
same_type_comm us_stock crypto = refl
same_type_comm us_stock kr_stock = refl
same_type_comm us_stock us_stock = refl

text_comm : (s t : String) → (s ==ₛ t) ≡ (t ==ₛ s)
text_comm s t = ground (arith, eq_iff s t, eq_iff t s)

same_triple_comm : (a b : AssetSymbol) → same_triple a b ≡ same_triple b a
same_triple_comm a b =
    rw
      (
        same_type_comm a.asset_type b.asset_type,
        text_comm a.symbol b.symbol,
        text_comm a.exchange b.exchange,
      )
      refl

-- A change of rows that leaves their triples alone.
Unique-map :
    (f : AssetSymbol → AssetSymbol) (rows : List AssetSymbol)
    → ((a b : AssetSymbol) → same_triple (f a) (f b) ≡ same_triple a b)
    → UniqueTriples rows
    → UniqueTriples (map f rows)
Unique-map f [] same h = tt
Unique-map f (x ∷ rows) same h = (others x rows h.0, Unique-map f rows same h.1)
  where
    others :
        (a : AssetSymbol) (ys : List AssetSymbol)
        → All (λ y. same_triple a y ≡ false) ys
        → All (λ y. same_triple (f a) y ≡ false) (map f ys)
    others a [] k = tt
    others a (y ∷ ys) k = (same a y ∙ k.0, others a ys k.1)

create_symbol-UniqueTriples :
    (c : SymbolCandidate) (db : Database)
    → get_by_triple c.asset_type c.symbol c.exchange db ≡ none
    → UniqueTriples db.asset_symbols
    → UniqueTriples (create_symbol c db).1.asset_symbols
unfolding create_symbol get_by_triple
create_symbol-UniqueTriples c db free h =
    Unlike-append same_triple db.asset_symbols (new_symbol db.next_asset_symbol c)
      (find-none (is_symbol c.asset_type c.symbol c.exchange) db.asset_symbols free) h

named : ℕ → SymbolCandidate → AssetSymbol → AssetSymbol
named k c s = if s.id == k then record s { name = c.name; currency = c.currency } else s

named-same :
    (k : ℕ) (c : SymbolCandidate) (a b : AssetSymbol)
    → same_triple (named k c a) (named k c b) ≡ same_triple a b
unfolding named
named-same k c a b = elim (Bool-cases (a.id == k)) [
  | inl e ↦ elim (Bool-cases (b.id == k)) [ inl f ↦ rw (e, f) refl | inr f ↦ rw (e, f) refl ]
  | inr e ↦ elim (Bool-cases (b.id == k)) [ inl f ↦ rw (e, f) refl | inr f ↦ rw (e, f) refl ]
]

upserted :
    (c : SymbolCandidate) (db : Database) (found : Option AssetSymbol)
    → get_by_triple c.asset_type c.symbol c.exchange db ≡ found
    → UniqueTriples db.asset_symbols
    → UniqueTriples (insert_or_update c found db).asset_symbols
unfolding named
upserted c db none free h = create_symbol-UniqueTriples c db free h
upserted c db (some row) there h =
    Unique-map (named row.id c) db.asset_symbols (named-same row.id c) h

upsert_all-UniqueTriples :
    (cs : List SymbolCandidate) (db : Database)
    → UniqueTriples db.asset_symbols
    → UniqueTriples (upsert_all cs db).asset_symbols
unfolding upsert_all
upsert_all-UniqueTriples [] db h = h
upsert_all-UniqueTriples (c ∷ cs) db h =
    let found = get_by_triple c.asset_type c.symbol c.exchange db in
    upsert_all-UniqueTriples cs (insert_or_update c found db) (upserted c db found refl h)

merged-UniqueTriples :
    (acc rows : List AssetSymbol) → UniqueTriples acc → UniqueTriples (merged acc rows)
unfolding merged
merged-UniqueTriples acc [] h = h
merged-UniqueTriples acc (row ∷ rows) h = elim (Bool-cases (any (λ x. same_triple x row) acc)) [
  | inl old ↦ rw old (merged-UniqueTriples acc rows h)
  | inr new ↦ rw new (
      merged-UniqueTriples (acc ++ row ∷ []) rows
        (Unlike-append same_triple acc row (any-none _ acc new) h))
]

-- An answer without a triple twice and no longer than the limit, and a table with the unique key.
abbrev pub Good : ℕ → List AssetSymbol × Database → Type 0
Good limit out = UniqueTriples out.0 × (length out.0 ≤ limit) × UniqueTriples out.1.asset_symbols

module _ (ilike : String → String → Bool) where
  hits-UniqueTriples :
      (q : Option String) (t : Option AssetType) (exchange : Option String) (limit offset : ℕ)
      (db : Database)
      → UniqueTriples db.asset_symbols
      → UniqueTriples (search ilike q t exchange limit offset db)
        × (length (search ilike q t exchange limit offset db) ≤ limit)
  unfolding search
  hits-UniqueTriples q t exchange limit offset db h =
      let kept = Unlike-filter same_triple (matches ilike q t exchange) db.asset_symbols h in
      let ordered = sort-Unlike same_triple same_triple_comm by_symbol _ kept in
      (
        Unlike-take same_triple limit _ (Unlike-drop same_triple offset _ ordered),
        length-take limit _,
      )

  -- A search keeps the unique key of the symbols' table, also where it adds the symbols that an
  -- adapter gives, and its answer has no triple twice and is no longer than the limit.
  pub search_symbols_lem :
      (adapters : Adapters) (q : Option String) (t : Option AssetType) (exchange : Option String)
      (limit offset : ℕ) (db : Database)
      → UniqueTriples db.asset_symbols
      → Good limit (search_symbols ilike adapters q t exchange limit offset db)
  unfolding search_symbols upsert_many
  search_symbols_lem adapters q t exchange limit offset db h =
      let hits = search ilike q t exchange limit offset db in
      let remaining = limit - length hits in
      let candidates = candidates_of adapters t (strip (or_empty q)) (remaining * 2) in
      let news = filter (λ c. not (among hits c)) candidates in
      let persisted = (upsert_many news db).0 in
      let (unique, short) = hits-UniqueTriples q t exchange limit offset db h in
      elim (Bool-cases (not (given q && type_given t) || (remaining == 0 || none_left news))) [
        | inl enough ↦ rw enough (unique, short, h)
        | inr more ↦ rw more (
          Unlike-take same_triple limit (merged hits persisted)
              (merged-UniqueTriples hits persisted unique),
          length-take limit (merged hits persisted),
          upsert_all-UniqueTriples news db h,
        )
      ]

find-append :
    (p : AssetSymbol → Bool) (rows : List AssetSymbol) (row : AssetSymbol)
    → find p rows ≡ none
    → p row ≡ true
    → find p (rows ++ row ∷ []) ≡ some row
unfolding find
find-append p [] row h e = rw e refl
find-append p (x ∷ rows) row h e = ground (arith, h, find-append p rows row, e)

same_type_self : (t : AssetType) → same_type t t ≡ true
same_type_self crypto = refl
same_type_self kr_stock = refl
same_type_self us_stock = refl

-- How a registration ends: it is refused for a triple that is there and changes nothing, or its new
-- row is what a search for the triple finds from then on, and the unique key holds.
abbrev pub Registered : SymbolCandidate → Database → Option AssetSymbol × Database → Type 0
Registered c db (none, after) =
    (any (is_symbol c.asset_type c.symbol c.exchange) db.asset_symbols ≡ true) × (after ≡ db)
Registered c db (some row, after) =
    (get_by_triple c.asset_type c.symbol c.exchange after ≡ some row)
    × (row ≡ new_symbol db.next_asset_symbol c)
    × UniqueTriples after.asset_symbols

found-any :
    (p : AssetSymbol → Bool) (rows : List AssetSymbol) (row : AssetSymbol)
    → find p rows ≡ some row
    → any p rows ≡ true
unfolding find
found-any p [] row h = cc
found-any p (x ∷ rows) row h = ground (arith, h, found-any p rows row)

-- Registering a symbol is refused with the database left alone where its triple is there, and else
-- it adds one row, which the triple then finds; the unique key holds either way.
pub register_lem :
    (c : SymbolCandidate) (db : Database)
    → UniqueTriples db.asset_symbols
    → Registered c db (register c db)
unfolding register
register_lem c db h =
    let fits = is_symbol c.asset_type c.symbol c.exchange in
    elim (Option-cases (get_by_triple c.asset_type c.symbol c.exchange db)) [
      | inl free ↦
          let own : fits (new_symbol db.next_asset_symbol c) ≡ true =
            ground (arith, same_type_self c.asset_type, text_same c.symbol, text_same c.exchange) in
          let unique = create_symbol-UniqueTriples c db free h in
          rw free (
            unfold get_by_triple in
                unfold create_symbol in
                (find-append fits db.asset_symbols (new_symbol db.next_asset_symbol c) free own),
            unfold create_symbol in refl,
            unique,
          )
      | inr (row, there) ↦
          rw there (unfold get_by_triple in found-any fits db.asset_symbols row there, refl)
    ]
