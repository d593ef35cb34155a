-- ===== src/Risk/Months.antt =====
-- The loop over the months of the heatmap.
use assetlog.Prelude.{
  ℕ, zero, suc, ◌+◌, ◌-◌, ◌*◌, ◌/◌, ◌≤◌, ◌<◌, ◌≡◌, refl, ap, ◌∙◌, sym, true, false, List, [], ◌∷◌,
  ltb, leb, arith, inl, inr, Bool-cases, if◌then◌else◌,
}
use assetlog.Performance.Window.{days_before_year, begun_year}
use assetlog.Risk.Grid.{day_of}
use assetlog.Risk.Heatmap.{
  YearMonth, begun_month, year_month, next_month, up_to, months_from, months_between,
}

-- The months up to a month, from the year 0 on.
abbrev pub rank : YearMonth → ℕ
rank ym = 12 * ym.year + ym.month

-- A month of the calendar.
abbrev pub IsMonth : YearMonth → Type 0
IsMonth ym = (1 ≤ ym.month) × (ym.month ≤ 12)

begun_month_bounds :
    (year m day : ℕ) → (1 ≤ begun_month year m day) × (begun_month year m day ≤ suc m)
unfolding begun_month
begun_month_bounds year zero day = omega arith
begun_month_bounds year (suc m) day = ground (arith, begun_month_bounds year m day)

pub year_month-IsMonth : (at : ℕ) → IsMonth (year_month at)
unfolding year_month
year_month-IsMonth at =
    let day = day_of at in
    let year = begun_year (day / 365 + 1) day in
    begun_month_bounds year 11 (day - days_before_year year)

next_month-IsMonth : (ym : YearMonth) → IsMonth ym → IsMonth (next_month ym)
next_month-IsMonth ym h = ground (arith, h)

rank-next_month : (ym : YearMonth) → IsMonth ym → rank (next_month ym) ≡ suc (rank ym)
rank-next_month ym h = ground (arith, h)

up_to-rank : (a b : YearMonth) → IsMonth a → IsMonth b → up_to a b ≡ leb (rank a) (rank b)
up_to-rank a b h k = ground (arith, h, k)

-- A month and the `n` after it.
unfoldable pub month_run : ℕ → YearMonth → List YearMonth
month_run zero ym = ym ∷ []
month_run (suc n) ym = ym ∷ month_run n (next_month ym)

months_over :
    (fuel : ℕ) (ym last : YearMonth)
    → IsMonth ym
    → IsMonth last
    → rank last < rank ym
    → months_from fuel ym last ≡ []
unfolding months_from
months_over zero ym last h k lt = refl
months_over (suc fuel) ym last h k lt =
    let over : up_to ym last ≡ false = ground (arith, up_to-rank ym last h k, lt) in rw over refl

months_from-run :
    (n fuel : ℕ) (ym last : YearMonth)
    → IsMonth ym
    → IsMonth last
    → rank last ≡ rank ym + n
    → n ≤ fuel
    → months_from (suc fuel) ym last ≡ month_run n ym
unfolding months_from month_run
months_from-run zero fuel ym last h k e le =
    let on : up_to ym last ≡ true = ground (arith, up_to-rank ym last h k, e) in
    let over : rank last < rank (next_month ym) = omega (arith, rank-next_month ym h, e) in
    rw on
      (ap (λ l. ym ∷ l) (months_over fuel (next_month ym) last (next_month-IsMonth ym h) k over))
months_from-run (suc n) zero ym last h k e le = absurd (omega (arith, le))
months_from-run (suc n) (suc fuel) ym last h k e le =
    let on : up_to ym last ≡ true = ground (arith, up_to-rank ym last h k, e) in
    let further : rank last ≡ rank (next_month ym) + n = omega (arith, rank-next_month ym h, e) in
    rw on (
      ap (λ l. ym ∷ l)
        (months_from-run n fuel (next_month ym) last (next_month-IsMonth ym h) k further
          (omega (arith, le))))

-- With a round for each month of the span the loop ends by its own test.
months_loop :
    (fuel : ℕ) (first last : YearMonth)
    → IsMonth first
    → IsMonth last
    → rank last ≤ rank first + fuel
    → months_from (suc fuel) first last
      ≡ (if leb (rank first) (rank last) then month_run (rank last - rank first) first else [])
months_loop fuel first last h k le = elim (Bool-cases (leb (rank first) (rank last))) [
  | inl ordered ↦ rw ordered (
      months_from-run (rank last - rank first) fuel first last h k (ground (arith, ordered))
        (omega (arith, le)))
  | inr apart ↦ rw apart (months_over (suc fuel) first last h k (ground (arith, apart)))
]

-- From the month of one time to the month of a later one, the loop gives every month in turn, both
-- included, and it ends by itself: with any number of rounds more it gives the same.
pub months_between_lem :
    (start end more : ℕ)
    → let first = year_month start in
      let last = year_month end in
      (months_between start end ≡ (
        if ltb end start
        then []
        else if leb (rank first) (rank last)
        then month_run (rank last - rank first) first
        else []))
      × (months_from (12 * (last.year - first.year + 1) + 1 + more) first last
          ≡ months_from (12 * (last.year - first.year + 1) + 1) first last)
unfolding months_between
months_between_lem start end more =
    let first = year_month start in
    let last = year_month end in
    let h = year_month-IsMonth start in
    let k = year_month-IsMonth end in
    let years : ℕ = last.year - first.year + 1 in
    let whole = λ (fuel : ℕ) (enough : 12 * years ≤ fuel).
      months_loop fuel first last h k (omega (arith, h, k, enough)) in
    let one_more : 12 * years + 1 ≡ suc (12 * years) = omega arith in
    let and_more : 12 * years + 1 + more ≡ suc (12 * years + more) = omega arith in
    let short = ap (λ f. months_from f first last) one_more ∙ whole (12 * years) (omega arith) in
    let long =
      ap (λ f. months_from f first last) and_more ∙ whole (12 * years + more) (omega arith) in
    (ap (λ l. if ltb end start then [] else l) short, long ∙ sym short)
