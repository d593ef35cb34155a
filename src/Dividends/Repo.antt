-- ===== src/Dividends/Repo.antt =====
-- backend/app/repositories/dividend.py. A dividend's `source` is left out: nothing here reads it. A
-- date is a number of days.
use assetlog.Prelude.{
  ℕ, suc, String, Bool, true, Option, none, some, List, [], ◌∷◌, ◌++◌, map, filter, find, any, ltb,
  leb, ◌==◌, ◌&&◌, if◌then◌else◌,
}
use assetlog.Prelude.Int.{ℤ, pos, ◌+ℤ◌}
use assetlog.Prelude.Keyed.{Keyed, at_key_or, set_key}
use assetlog.Prelude.Sorting.{sort}
use assetlog.Db.{Database, Dividend, AssetSymbol}

-- domain/dividend.py
pub record DividendQuote : Type 0 where
  pub ex_date : ℕ
  pub amount : ℤ
  pub currency : String

abbrev pub new_dividend : ℕ → ℕ → DividendQuote → Dividend
new_dividend id asset_symbol_id q = record {
  id = id;
  asset_symbol_id = asset_symbol_id;
  ex_date = q.ex_date;
  amount = q.amount;
  withholding_tax = pos 0;
  currency = q.currency;
  external_source = none;
  external_id = none;
}

abbrev pub of_symbol : ℕ → Dividend → Bool
of_symbol asset_symbol_id d = d.asset_symbol_id == asset_symbol_id

abbrev pub dates_of : List Dividend → List ℕ
dates_of rows = map (λ (d : Dividend). d.ex_date) rows

abbrev pub is_in : List ℕ → ℕ → Bool
is_in dates date = any (λ d. d == date) dates

-- The loop over the quotes, with `existing_dates`.
unfoldable pub insert_each : ℕ → List ℕ → List DividendQuote → Database → ℕ × Database
insert_each asset_symbol_id existing_dates [] db = (0, db)
insert_each asset_symbol_id existing_dates (q ∷ quotes) db =
    let skipped = insert_each asset_symbol_id existing_dates quotes db in
    let (n, db') = insert_each asset_symbol_id (q.ex_date ∷ existing_dates) quotes (record db {
      dividends = db.dividends ++ new_dividend db.next_dividend asset_symbol_id q ∷ [];
      next_dividend = suc db.next_dividend;
    }) in
    if is_in existing_dates q.ex_date then skipped else (suc n, db')

unfoldable pub insert_quotes : ℕ → List DividendQuote → Database → ℕ × Database
unfolding insert_each filter
insert_quotes asset_symbol_id quotes db =
    insert_each asset_symbol_id (dates_of (filter (of_symbol asset_symbol_id) db.dividends)) quotes
      db

abbrev pub id_fits : Option (List ℕ) → Dividend → Bool
id_fits none d = true
id_fits (some ids) d = is_in ids d.asset_symbol_id

abbrev pub not_before : Option ℕ → Dividend → Bool
not_before none d = true
not_before (some date) d = leb date d.ex_date

abbrev pub not_after : Option ℕ → Dividend → Bool
not_after none d = true
not_after (some date) d = leb d.ex_date date

abbrev pub newest_first : Dividend → Dividend → Bool
newest_first a b = if a.ex_date == b.ex_date then leb b.id a.id else ltb b.ex_date a.ex_date

abbrev pub oldest_first : Dividend → Dividend → Bool
oldest_first a b = if a.ex_date == b.ex_date then leb a.id b.id else ltb a.ex_date b.ex_date

unfoldable pub list_filtered : Option (List ℕ) → Option ℕ → Option ℕ → Database → List Dividend
unfolding sort filter
list_filtered asset_symbol_ids date_from date_to db = sort newest_first (
    filter (λ d. id_fits asset_symbol_ids d && (not_before date_from d && not_after date_to d))
      db.dividends)

unfoldable pub add_amounts : List Dividend → Keyed ℤ → Keyed ℤ
unfolding at_key_or set_key ◌+ℤ◌
add_amounts [] sums = sums
add_amounts (d ∷ rows) sums =
    add_amounts rows
      (set_key d.asset_symbol_id (at_key_or d.asset_symbol_id (pos 0) sums +ℤ d.amount) sums)

-- SUM(amount) with GROUP BY asset_symbol_id.
unfoldable pub sum_by_symbol : Option (List ℕ) → Database → Keyed ℤ
unfolding add_amounts filter
sum_by_symbol asset_symbol_ids db = add_amounts (filter (id_fits asset_symbol_ids) db.dividends) []

pub record CalendarRow : Type 0 where
  pub asset_symbol_id : ℕ
  pub symbol : String
  pub name : String
  pub ex_date : ℕ
  pub amount : ℤ
  pub currency : String

abbrev pub with_symbol : Dividend → Option AssetSymbol → List CalendarRow → List CalendarRow
with_symbol d none rows = rows
with_symbol d (some s) rows =
    record {
      asset_symbol_id = d.asset_symbol_id;
      symbol = s.symbol;
      name = s.name;
      ex_date = d.ex_date;
      amount = d.amount;
      currency = d.currency;
    }
    ∷ rows

unfoldable pub joined : List AssetSymbol → List Dividend → List CalendarRow
unfolding find
joined symbols [] = []
joined symbols (d ∷ rows) =
    with_symbol d (find (λ (s : AssetSymbol). s.id == d.asset_symbol_id) symbols)
      (joined symbols rows)

unfoldable pub list_calendar_with_symbol : Option ℕ → Option ℕ → Database → List CalendarRow
unfolding joined sort filter
list_calendar_with_symbol date_from date_to db =
    joined db.asset_symbols
      (sort oldest_first (filter (λ d. not_before date_from d && not_after date_to d) db.dividends))
