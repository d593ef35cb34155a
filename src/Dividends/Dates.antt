-- ===== src/Dividends/Dates.antt =====
-- The dates that the table has of a symbol, and its unique key.
use assetlog.Prelude.{
  ℕ, ◌+◌, ◌≤◌, ◌≡◌, refl, ap, ◌∙◌, sym, Bool, true, false, List, [], ◌∷◌, ◌++◌, filter, any, length,
  ◌==◌, ◌&&◌, ◌||◌, arith, inl, inr, Bool-cases, if◌then◌else◌,
}
use assetlog.Db.{Dividend}
use assetlog.Dividends.Repo.{DividendQuote, new_dividend, of_symbol, dates_of, is_in}

-- A row of a symbol and a date.
abbrev pub is_at : ℕ → ℕ → Dividend → Bool
is_at id date d = of_symbol id d && d.ex_date == date

abbrev pub has_date : ℕ → ℕ → List Dividend → Bool
has_date id date rows = any (is_at id date) rows

-- UNIQUE (asset_symbol_id, ex_date)
abbrev pub UniqueDates : List Dividend → Type 0
UniqueDates rows = (id date : ℕ) → length (filter (is_at id date) rows) ≤ 1

pub has_date-append :
    (id date : ℕ) (rows : List Dividend) (n k : ℕ) (q : DividendQuote)
    → has_date id date (rows ++ new_dividend n k q ∷ [])
      ≡ (has_date id date rows || (k == id && q.ex_date == date))
has_date-append id date [] n k q = ground arith
has_date-append id date (d ∷ rows) n k q = ground (arith, has_date-append id date rows n k q)

pub known_dates :
    (id date : ℕ) (rows : List Dividend)
    → is_in (dates_of (filter (of_symbol id) rows)) date ≡ has_date id date rows
unfolding filter
known_dates id date [] = refl
known_dates id date (d ∷ rows) = ground (arith, known_dates id date rows)

none_at :
    (id date : ℕ) (rows : List Dividend)
    → has_date id date rows ≡ false
    → length (filter (is_at id date) rows) ≡ 0
unfolding filter
none_at id date [] h = refl
none_at id date (d ∷ rows) h = ground (arith, h, none_at id date rows)

count-append :
    (id date : ℕ) (rows : List Dividend) (n k : ℕ) (q : DividendQuote)
    → length (filter (is_at id date) (rows ++ new_dividend n k q ∷ []))
      ≡ length (filter (is_at id date) rows) + (if k == id && q.ex_date == date then 1 else 0)
unfolding filter
count-append id date [] n k q = ground arith
count-append id date (d ∷ rows) n k q = ground (arith, count-append id date rows n k q)

pub or_true : (b : Bool) → (b || true) ≡ true
or_true true = refl
or_true false = refl

pub UniqueDates-append :
    (rows : List Dividend) (n k : ℕ) (q : DividendQuote)
    → has_date k q.ex_date rows ≡ false
    → UniqueDates rows
    → UniqueDates (rows ++ new_dividend n k q ∷ [])
UniqueDates-append rows n k q new unique id date =
    elim (Bool-cases (k == id && q.ex_date == date)) [
      | inl same ↦
          let e : k ≡ id = ground (arith, same) in
          let f : q.ex_date ≡ date = ground (arith, same) in
          let free =
            ap (λ i. has_date i date rows) (sym e) ∙ ap (λ d. has_date k d rows) (sym f) ∙ new in
          rw (count-append id date rows n k q, same) (omega (arith, none_at id date rows free))
      | inr other ↦ rw (count-append id date rows n k q, other) (omega (arith, unique id date))
    ]

-- The dates that the loop knows are those that the table has for the symbol.
abbrev pub Agree : ℕ → List ℕ → List Dividend → Type 0
Agree id dates rows = (date : ℕ) → is_in dates date ≡ has_date id date rows

or_swap : (a b c : Bool) → a ≡ b → (if c then true else a) ≡ (b || c)
or_swap true b true e = rw (← e) refl
or_swap true b false e = rw (← e) refl
or_swap false b true e = rw (← e) refl
or_swap false b false e = rw (← e) refl

pub Agree-append :
    (id : ℕ) (dates : List ℕ) (rows : List Dividend) (n : ℕ) (q : DividendQuote)
    → Agree id dates rows
    → Agree id (q.ex_date ∷ dates) (rows ++ new_dividend n id q ∷ [])
Agree-append id dates rows n q agree date =
    let own : (id == id && q.ex_date == date) ≡ (q.ex_date == date) = ground arith in
    or_swap (is_in dates date) (has_date id date rows) (q.ex_date == date) (agree date)
    ∙ sym (has_date-append id date rows n id q ∙ ap (λ b. has_date id date rows || b) own)

pub kept-append :
    (i d : ℕ) (rows : List Dividend) (n k : ℕ) (q : DividendQuote)
    → has_date i d rows ≡ true
    → has_date i d (rows ++ new_dividend n k q ∷ []) ≡ true
kept-append i d rows n k q h = has_date-append i d rows n k q ∙ rw h refl
