-- ===== src/Performance/Mwr.antt =====
-- `compute_mwr` and `_annualize` of backend/app/services/performance.py. Python's floats are a
-- parameter: a type with the operations that the code uses. A float operation that raises (an
-- overflow, a division by zero) is not modelled.
use assetlog.Prelude.{
  ℕ, zero, suc, ◌+◌, ◌-◌, ◌/◌, Bool, Option, none, some, List, [], ◌∷◌, ◌++◌, map, any, leb, ◌&&◌,
  ◌||◌, if◌then◌else◌,
}
use assetlog.Prelude.Int.{ℤ, pos, ◌-ℤ◌, ltb_ℤ, leb_ℤ}
use assetlog.Prelude.Sorting.{sort, by_key}
use assetlog.Performance.Flows.{Cashflow}
use assetlog.Performance.Twr.{Ratio, one_plus}

pub record Floats : Type 1 where
  pub F : Type 0
  -- `float(amount)`, `float(rate)`, `days / 365.0` of whole days, and of a span of microseconds.
  pub of_amount : ℤ → F
  pub of_ratio : Ratio → F
  pub years_of_days : ℤ → F
  pub years_of_span : ℕ → F
  pub add : F → F → F
  pub sub : F → F → F
  pub mul : F → F → F
  pub div : F → F → F
  pub pow : F → F → F
  pub sqrt : F → F
  pub abs : F → F
  pub less : F → F → Bool
  pub at_most : F → F → Bool
  pub is_zero : F → Bool
  -- The literals 0, 1, 2, 252, 1e-9, 0.10, -0.999, -0.99, 10 and 1e-12.
  pub nought : F
  pub unit : F
  pub two : F
  pub trading_days : F
  pub tol : F
  pub seed : F
  pub floor_rate : F
  pub bracket_low : F
  pub bracket_high : F
  pub narrow : F
  -- `Decimal(str(round(r, 10)))`
  pub rounded : F → F

-- `(ts - ref_date).days`, which rounds down.
abbrev pub whole_days : ℕ → ℕ → ℤ
whole_days ref_date ts =
    if leb ref_date ts
    then pos ((ts - ref_date) / 86_400_000_000)
    else pos 0 -ℤ pos ((ref_date - ts + 86_399_999_999) / 86_400_000_000)

abbrev pub Payment : Type 0
Payment = ℕ × ℤ

abbrev pub paid_at : Payment → ℕ
paid_at p = p.0

abbrev pub opening : ℤ → Option ℕ → List Payment
opening initial_value none = []
opening initial_value (some date) =
    if ltb_ℤ (pos 0) initial_value then (date, pos 0 -ℤ initial_value) ∷ [] else []

-- The flows with the terminal value, in the order of time.
unfoldable pub sorted_payments : List Cashflow → ℤ → ℕ → ℤ → Option ℕ → List Payment
unfolding sort ◌-ℤ◌
sorted_payments cashflows terminal_value terminal_date initial_value initial_date =
    sort (by_key paid_at) (
      opening initial_value initial_date
      ++ (map (λ (cf : Cashflow). (cf.date, cf.amount)) cashflows
          ++ (terminal_date, terminal_value) ∷ []))

abbrev pub first_date : ℕ → List Payment → ℕ
first_date default [] = default
first_date default (p ∷ ps) = p.0

-- The payments with an initial one at the first date, where it has no date of its own.
abbrev pub all_payments : List Payment → ℕ → ℤ → Option ℕ → List Payment
all_payments ps terminal_date initial_value (some date) = ps
all_payments ps terminal_date initial_value none =
    if ltb_ℤ (pos 0) initial_value
    then (first_date terminal_date ps, pos 0 -ℤ initial_value) ∷ ps
    else ps

abbrev pub reference_date : List Payment → ℕ → ℤ → Option ℕ → ℕ
reference_date ps terminal_date initial_value none = first_date terminal_date ps
reference_date ps terminal_date initial_value (some date) =
    if ltb_ℤ (pos 0) initial_value then date else first_date terminal_date ps

-- Money goes both ways.
abbrev pub both_signs : List Payment → Bool
both_signs ps =
    any (λ (p : Payment). ltb_ℤ (pos 0) p.1) ps && any (λ (p : Payment). ltb_ℤ p.1 (pos 0)) ps

module _ (floats : Floats) where
  open floats use {
    F, of_amount, of_ratio, years_of_days, years_of_span, add, sub, mul, div, pow, abs, less,
    at_most, is_zero, nought, unit, two, tol, seed, floor_rate, bracket_low, bracket_high, narrow,
    rounded,
  }

  -- The sums of `npv` and `dnpv`, each from the total so far.
  unfoldable pub npv_from : ℕ → F → F → List Payment → F
  unfolding ◌-ℤ◌
  npv_from ref_date r total [] = total
  npv_from ref_date r total (p ∷ ps) =
      npv_from ref_date r
        (add total
          (div (of_amount p.1) (pow (add unit r) (years_of_days (whole_days ref_date p.0)))))
        ps

  unfoldable pub dnpv_from : ℕ → F → F → List Payment → F
  unfolding ◌-ℤ◌
  dnpv_from ref_date r total [] = total
  dnpv_from ref_date r total (p ∷ ps) =
      let t = years_of_days (whole_days ref_date p.0) in
      dnpv_from ref_date r
        (add total (div (mul (sub nought t) (of_amount p.1)) (pow (add unit r) (add t unit)))) ps

  abbrev pub npv : ℕ → List Payment → F → F
  npv ref_date ps r = npv_from ref_date r nought ps

  abbrev pub dnpv : ℕ → List Payment → F → F
  dnpv ref_date ps r = dnpv_from ref_date r nought ps

  module _ (ref_date : ℕ) (ps : List Payment) where
    -- Newton's iteration; none where it does not converge.
    unfoldable pub newton : ℕ → F → Option F
    unfolding npv_from dnpv_from
    newton zero r = none
    newton (suc rounds) r =
        let f = npv ref_date ps r in
        let df = dnpv ref_date ps r in
        let r_new = sub r (div f df) in
        let on = newton rounds r_new in
        if less (abs f) tol
        then some r
        else if is_zero df
        then none
        else if at_most r_new floor_rate
        then none
        else on

    unfoldable pub bisect : ℕ → F → F → F → Option F
    unfolding npv_from
    bisect zero lo hi f_lo = none
    bisect (suc rounds) lo hi f_lo =
        let mid = div (add lo hi) two in
        let f_mid = npv ref_date ps mid in
        let left = bisect rounds lo mid f_lo in
        let right = bisect rounds mid hi f_mid in
        if less (abs f_mid) tol || less (sub hi lo) narrow
        then some mid
        else if less (mul f_lo f_mid) nought
        then left
        else right

    abbrev pub fallback : Option F → Option F
    fallback (some r) = some (rounded r)
    fallback none =
        let f_lo = npv ref_date ps bracket_low in
        let f_hi = npv ref_date ps bracket_high in
        let found = bisect 200 bracket_low bracket_high f_lo in
        if less nought (mul f_lo f_hi)
        then none
        else elim found [ none ↦ none | some mid ↦ some (rounded mid) ]

  abbrev pub solve : ℕ → List Payment → Option F
  solve ref_date ps =
      if both_signs ps then fallback ref_date ps (newton ref_date ps 100 seed) else none

  unfoldable pub compute_mwr : List Cashflow → ℤ → ℕ → ℤ → Option ℕ → Option F
  unfolding sorted_payments newton bisect npv_from
  compute_mwr cashflows terminal_value terminal_date initial_value initial_date =
      let ps = sorted_payments cashflows terminal_value terminal_date initial_value initial_date in
      solve (reference_date ps terminal_date initial_value initial_date)
        (all_payments ps terminal_date initial_value initial_date)

  -- `_annualize`, over a span of time.
  unfoldable pub annualize : Ratio → ℕ → Option F
  annualize rate span =
      if leb span 0
      then none
      else if leb_ℤ (one_plus rate).num (pos 0)
      then none
      else some
          (rounded (sub (pow (of_ratio (one_plus rate)) (div unit (years_of_span span))) unit))
