-- ===== src/Dividends/Again.antt =====
-- A refresh of the dividends keeps the unique key, and the same refresh once more changes nothing.
use assetlog.Prelude.{
  ℕ, suc, ◌≡◌, refl, ap, ◌∙◌, sym, true, Option, none, some, List, [], ◌∷◌, ◌++◌, All, All-mono,
  filter, take, drop, ◌==◌, ◌&&◌, ◌||◌, arith, inl, inr, Bool-cases,
}
use assetlog.Db.{Database, AssetSymbol, AssetType, us_stock, kr_stock}
use assetlog.Dividends.Repo.{
  DividendQuote, new_dividend, of_symbol, dates_of, is_in, insert_each, insert_quotes,
}
use assetlog.Dividends.Service.{
  Adapter, no_like, store, refresh_symbols, symbols_of, refresh_us_dividends, refresh_kr_dividends,
}
use assetlog.Prelude.Sorting.{sort}
use assetlog.Symbols.Repo.{search, matches, by_symbol}
use assetlog.Dividends.Dates.{
  has_date, UniqueDates, Agree, has_date-append, known_dates, UniqueDates-append, kept-append,
  Agree-append, or_true,
}

-- What an insertion of quotes makes of the table.
pub record Inserted (id : ℕ) (quotes : List DividendQuote) (before after : Database) : Type 0 where
  pub unique : UniqueDates before.dividends → UniqueDates after.dividends
  pub kept : (i d : ℕ) → has_date i d before.dividends ≡ true → has_date i d after.dividends ≡ true
  pub there : All (λ q. has_date id q.ex_date after.dividends ≡ true) quotes
  pub symbols : after.asset_symbols ≡ before.asset_symbols

abbrev added : ℕ → DividendQuote → Database → Database
added id q db = record db {
  dividends = db.dividends ++ new_dividend db.next_dividend id q ∷ [];
  next_dividend = suc db.next_dividend;
}

insert_each-Inserted :
    (id : ℕ) (dates : List ℕ) (quotes : List DividendQuote) (db : Database)
    → Agree id dates db.dividends
    → Inserted id quotes db (insert_each id dates quotes db).1
unfolding insert_each
insert_each-Inserted id dates [] db agree = record {
  unique = λ u. u;
  kept = λ i d h. h;
  there = tt;
  symbols = refl;
}
insert_each-Inserted id dates (q ∷ quotes) db agree = elim (Bool-cases (is_in dates q.ex_date)) [
  | inl old ↦
      let on = insert_each-Inserted id dates quotes db agree in
      let known = on.kept id q.ex_date (sym (agree q.ex_date) ∙ old) in
      rw old (record {
        unique = on.unique;
        kept = on.kept;
        there = (known, on.there);
        symbols = on.symbols;
      })
  | inr new ↦
      let rows = db.dividends in
      let n = db.next_dividend in
      let on =
        insert_each-Inserted id (q.ex_date ∷ dates) quotes (added id q db)
          (Agree-append id dates rows n q agree) in
      let own : (id == id && q.ex_date == q.ex_date) ≡ true = ground arith in
      let here =
        has_date-append id q.ex_date rows n id q
        ∙ ap (λ b. has_date id q.ex_date rows || b) own
        ∙ or_true (has_date id q.ex_date rows) in
      rw new (record {
        unique = λ u. on.unique (UniqueDates-append rows n id q (sym (agree q.ex_date) ∙ new) u);
        kept = λ i d h. on.kept i d (kept-append i d rows n id q h);
        there = (on.kept id q.ex_date here, on.there);
        symbols = on.symbols;
      })
]

pub insert_quotes-Inserted :
    (id : ℕ) (quotes : List DividendQuote) (db : Database)
    → Inserted id quotes db (insert_quotes id quotes db).1
unfolding insert_quotes
insert_quotes-Inserted id quotes db =
    insert_each-Inserted id (dates_of (filter (of_symbol id) db.dividends)) quotes db
      (λ date. known_dates id date db.dividends)

insert_each-none :
    (id : ℕ) (dates : List ℕ) (quotes : List DividendQuote) (db : Database)
    → Agree id dates db.dividends
    → All (λ q. has_date id q.ex_date db.dividends ≡ true) quotes
    → insert_each id dates quotes db ≡ (0, db)
unfolding insert_each
insert_each-none id dates [] db agree known = refl
insert_each-none id dates (q ∷ quotes) db agree known =
    let old = agree q.ex_date ∙ known.0 in
    rw old (insert_each-none id dates quotes db agree known.1)

insert_quotes-none :
    (id : ℕ) (quotes : List DividendQuote) (db : Database)
    → All (λ q. has_date id q.ex_date db.dividends ≡ true) quotes
    → insert_quotes id quotes db ≡ (0, db)
unfolding insert_quotes
insert_quotes-none id quotes db known =
    insert_each-none id (dates_of (filter (of_symbol id) db.dividends)) quotes db
      (λ date. known_dates id date db.dividends) known

-- The quotes of an adapter's answer, none where it raised.
abbrev quotes_of : Option (List DividendQuote) → List DividendQuote
quotes_of none = []
quotes_of (some quotes) = quotes

store-Inserted :
    (id : ℕ) (answer : Option (List DividendQuote)) (db : Database)
    → Inserted id (quotes_of answer) db (store id answer db).1
store-Inserted id none db = record {
  unique = λ u. u;
  kept = λ i d h. h;
  there = tt;
  symbols = refl;
}
store-Inserted id (some quotes) db = insert_quotes-Inserted id quotes db

store-none :
    (id : ℕ) (answer : Option (List DividendQuote)) (db : Database)
    → All (λ q. has_date id q.ex_date db.dividends ≡ true) (quotes_of answer)
    → store id answer db ≡ (0, db)
store-none id none db known = refl
store-none id (some quotes) db known = insert_quotes-none id quotes db known

module _ (adapter : Adapter) where
  -- Every quote of every symbol has its row.
  abbrev Stored : List AssetSymbol → Database → Type 0
  Stored symbols db =
      All
        (λ (sym : AssetSymbol).
          All (λ q. has_date sym.id q.ex_date db.dividends ≡ true) (quotes_of (adapter sym.symbol)))
        symbols

  abbrev Refreshed : List AssetSymbol → Database → Database → Type 0
  Refreshed symbols before after =
      (UniqueDates before.dividends → UniqueDates after.dividends)
      × ((i d : ℕ) → has_date i d before.dividends ≡ true → has_date i d after.dividends ≡ true)
      × Stored symbols after
      × (after.asset_symbols ≡ before.asset_symbols)

  refresh_symbols-Refreshed :
      (symbols : List AssetSymbol) (db : Database)
      → Refreshed symbols db (refresh_symbols adapter symbols db).1
  unfolding refresh_symbols
  refresh_symbols-Refreshed [] db = (λ u. u, λ i d h. h, tt, refl)
  refresh_symbols-Refreshed (sym' ∷ symbols) db =
      let answer = adapter sym'.symbol in
      let first = store-Inserted sym'.id answer db in
      let db' = (store sym'.id answer db).1 in
      let (unique, kept, stored, same) = refresh_symbols-Refreshed symbols db' in
      (
        λ u. unique (first.unique u),
        λ i d h. kept i d (first.kept i d h),
        (All-mono _ _ (quotes_of answer) (λ q h. kept sym'.id q.ex_date h) first.there, stored),
        same ∙ first.symbols,
      )

  refresh_symbols-none :
      (symbols : List AssetSymbol) (db : Database)
      → Stored symbols db
      → refresh_symbols adapter symbols db ≡ (0, db)
  unfolding refresh_symbols
  refresh_symbols-none [] db h = refl
  refresh_symbols-none (sym' ∷ symbols) db h =
      rw (store-none sym'.id (adapter sym'.symbol) db h.0)
        (rw (refresh_symbols-none symbols db h.1) refl)

symbols_of-same :
    (t : AssetType) (a b : Database)
    → a.asset_symbols ≡ b.asset_symbols
    → symbols_of t a ≡ symbols_of t b
unfolding search
symbols_of-same t a b e =
    ap (λ l. take 1000 (drop 0 (sort by_symbol (filter (matches no_like none (some t) none) l)))) e

again :
    (adapter : Adapter) (t : AssetType) (db : Database)
    → let after = (refresh_symbols adapter (symbols_of t db) db).1 in
      refresh_symbols adapter (symbols_of t after) after ≡ (0, after)
again adapter t db =
    let symbols = symbols_of t db in
    let after = (refresh_symbols adapter symbols db).1 in
    let (unique, kept, stored, same) = refresh_symbols-Refreshed adapter symbols db in
    ap (λ s. refresh_symbols adapter s after) (symbols_of-same t after db same)
    ∙ refresh_symbols-none adapter symbols after stored

-- The same refresh of the dividends once more, US or Korean, inserts nothing and leaves the database
-- as it is, also where an adapter gives a date twice or raises.
pub refresh_dividends-again :
    (adapter : Adapter) (db : Database)
    → let us = (refresh_us_dividends adapter db).1 in
      let kr = (refresh_kr_dividends adapter db).1 in
      (refresh_us_dividends adapter us ≡ (0, us)) × (refresh_kr_dividends adapter kr ≡ (0, kr))
unfolding refresh_us_dividends refresh_kr_dividends
refresh_dividends-again adapter db = (again adapter us_stock db, again adapter kr_stock db)

-- A refresh of the dividends keeps one row at most for each symbol and ex-date.
pub refresh_dividends-UniqueDates :
    (adapter : Adapter) (db : Database)
    → UniqueDates db.dividends
    → UniqueDates (refresh_us_dividends adapter db).1.dividends
      × UniqueDates (refresh_kr_dividends adapter db).1.dividends
unfolding refresh_us_dividends refresh_kr_dividends
refresh_dividends-UniqueDates adapter db unique = (
  (refresh_symbols-Refreshed adapter (symbols_of us_stock db) db).0 unique,
  (refresh_symbols-Refreshed adapter (symbols_of kr_stock db) db).0 unique,
)
