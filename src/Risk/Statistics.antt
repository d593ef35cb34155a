-- ===== src/Risk/Statistics.antt =====
-- The statistics of backend/app/services/risk.py. A quotient is an exact fraction; a decimal that
-- comes from a float is a float here.
use assetlog.Prelude.{
  ℕ, ◌-◌, ◌*◌, Option, none, some, List, [], ◌∷◌, length, ltb, leb, ◌&&◌, ◌||◌, if◌then◌else◌,
}
use assetlog.Prelude.Int.{ℤ, pos, ◌+ℤ◌, ◌-ℤ◌, ◌*ℤ◌, ltb_ℤ, leb_ℤ}
use assetlog.Performance.Series.{ValuePoint}
use assetlog.Performance.Twr.{Ratio, quotient, less_one}
use assetlog.Performance.Mwr.{Floats}

abbrev pub nil_ratio : Ratio
nil_ratio = record { num = pos 0; den = 1 }

abbrev pub plus : Ratio → Ratio → Ratio
plus r s = record { num = r.num *ℤ pos s.den +ℤ s.num *ℤ pos r.den; den = r.den * s.den }

abbrev pub minus : Ratio → Ratio → Ratio
minus r s = record { num = r.num *ℤ pos s.den -ℤ s.num *ℤ pos r.den; den = r.den * s.den }

abbrev pub over : Ratio → ℕ → Ratio
over r n = record { num = r.num; den = r.den * n }

abbrev pub square : Ratio → Ratio
square r = record { num = r.num *ℤ r.num; den = r.den * r.den }

abbrev pub total : List Ratio → Ratio
total [] = nil_ratio
total (r ∷ rs) = plus r (total rs)

abbrev pub deviations : Ratio → List Ratio → List Ratio
deviations mean [] = []
deviations mean (v ∷ values) = square (minus v mean) ∷ deviations mean values

-- `prev` is the value before, of any sign.
unfoldable pub returns_after : ℤ → List ValuePoint → List Ratio
unfolding ◌-ℤ◌
returns_after prev [] = []
returns_after prev (vp ∷ series) =
    let rest = returns_after vp.value series in
    if ltb_ℤ (pos 0) prev && ltb_ℤ (pos 0) vp.value
    then less_one (quotient vp.value prev) ∷ rest
    else rest

abbrev pub to_daily_returns : List ValuePoint → List Ratio
to_daily_returns [] = []
to_daily_returns (vp ∷ series) = returns_after vp.value series

module _ (floats : Floats) where
  open floats use {F, of_ratio, sub, mul, div, pow, sqrt, nought, unit, trading_days, years_of_span}

  -- `_stdev`
  unfoldable pub stdev : List Ratio → Option F
  unfolding ◌+ℤ◌ ◌-ℤ◌ ◌*ℤ◌
  stdev values =
      let n = length values in
      let mean = over (total values) n in
      let variance = over (total (deviations mean values)) (n - 1) in
      if ltb n 2
      then none
      else if leb_ℤ variance.num (pos 0)
      then some nought
      else some (sqrt (of_ratio variance))

  abbrev pub scaled_vol : Option F → Option F
  scaled_vol none = none
  scaled_vol (some daily_vol) = some (mul daily_vol (sqrt trading_days))

  unfoldable pub annualized_volatility : List Ratio → Option F
  unfolding stdev
  annualized_volatility daily_returns = scaled_vol (stdev daily_returns)

  -- `_annualized_return`, over whole days.
  unfoldable pub annualized_return : ℤ → ℤ → ℕ → Option F
  annualized_return start_value end_value span =
      if leb_ℤ start_value (pos 0) || (leb_ℤ end_value (pos 0) || leb span 0)
      then none
      else some (
          sub (pow (of_ratio (quotient end_value start_value)) (div unit (years_of_span span)))
            unit)
