-- ===== src/Performance/Twr.antt =====
-- `compute_twr` of backend/app/services/performance.py. A quotient is an exact fraction here, where
-- Python rounds it to the 28 digits of its decimal context.
use assetlog.Prelude.{
  ℕ, ◌*◌, Option, none, some, List, [], ◌∷◌, ◌++◌, map, filter, any, ltb, leb, ◌==◌, ◌&&◌,
  if◌then◌else◌,
}
use assetlog.Prelude.Int.{ℤ, pos, pos_part, ◌+ℤ◌, ◌-ℤ◌, ◌*ℤ◌, leb_ℤ}
use assetlog.Prelude.Keyed.{Keyed, at_key_or, set_key}
use assetlog.Prelude.Sorting.{sort, by_key}
use assetlog.Performance.Flows.{Cashflow}
use assetlog.Performance.Series.{ValuePoint}

-- A fraction with a positive denominator.
pub record Ratio : Type 0 where
  pub num : ℤ
  pub den : ℕ

-- `a / b` for a positive `b`.
abbrev pub quotient : ℤ → ℤ → Ratio
quotient a b = record { num = a; den = pos_part b }

abbrev pub one : Ratio
one = record { num = pos 1; den = 1 }

-- A return of zero.
abbrev pub unchanged : Ratio
unchanged = record { num = pos 0; den = 1 }

-- `1 + r`, `r - 1` and `r * s`
abbrev pub one_plus : Ratio → Ratio
one_plus r = record { num = pos r.den +ℤ r.num; den = r.den }

abbrev pub less_one : Ratio → Ratio
less_one r = record { num = r.num -ℤ pos r.den; den = r.den }

abbrev pub times : Ratio → Ratio → Ratio
times r s = record { num = r.num *ℤ s.num; den = r.den * s.den }

abbrev pub at_time : ValuePoint → ℕ
at_time vp = vp.timestamp

abbrev pub flow_time : Cashflow → ℕ
flow_time cf = cf.date

-- `_value_at`, with the loop's `candidate`.
unfoldable pub latest_value : ℤ → List ValuePoint → ℕ → ℤ
latest_value candidate [] ts = candidate
latest_value candidate (vp ∷ series) ts =
    let on = latest_value vp.value series ts in if leb vp.timestamp ts then on else candidate

-- `cf_by_ts`
unfoldable pub net_flows : List Cashflow → Keyed ℤ → Keyed ℤ
unfolding at_key_or set_key ◌+ℤ◌
net_flows [] cf_by_ts = cf_by_ts
net_flows (cf ∷ cfs) cf_by_ts =
    net_flows cfs (set_key cf.date (at_key_or cf.date (pos 0) cf_by_ts +ℤ cf.amount) cf_by_ts)

-- The loop with `seen_set`.
unfoldable pub first_seen : List ℕ → List ℕ → List ℕ
first_seen seen [] = []
first_seen seen (b ∷ bs) =
    let rest = first_seen (if any (λ s. s == b) seen then seen else b ∷ seen) bs in
    if any (λ s. s == b) seen then rest else b ∷ rest

abbrev pub id : ℕ → ℕ
id t = t

unfoldable pub boundaries : ℕ → ℕ → Keyed ℤ → List ℕ
unfolding first_seen sort filter
boundaries start_ts end_ts cf_by_ts =
    let times = map (λ (e : ℕ × ℤ). e.0) cf_by_ts in
    first_seen [] (
      start_ts
      ∷ (sort (by_key id) (filter (λ ts. ltb start_ts ts && leb ts end_ts) times) ++ end_ts ∷ []))

module _ (value : ℕ → ℤ) (cf_by_ts : Keyed ℤ) where
  -- The loop over the boundaries after the first, with `cumulative` and `v_start`.
  unfoldable pub chain : Ratio → ℤ → List ℕ → Option Ratio
  unfolding at_key_or ◌+ℤ◌ ◌-ℤ◌ ◌*ℤ◌
  chain cumulative v_start [] = some (less_one cumulative)
  chain cumulative v_start (cur_ts ∷ rest) =
      let v_post = value cur_ts in
      let v_before = v_post +ℤ at_key_or cur_ts (pos 0) cf_by_ts in
      let r = less_one (quotient v_before v_start) in
      let on = chain (times cumulative (one_plus r)) v_post rest in
      if leb_ℤ v_start (pos 0) then none else if leb_ℤ v_post (pos 0) then none else on

  abbrev pub from_start : List ℕ → Option Ratio
  from_start [] = some unchanged
  from_start (start_ts ∷ []) = some unchanged
  from_start (start_ts ∷ b ∷ rest) =
      let v_start = value start_ts in
      if leb_ℤ v_start (pos 0) then none else chain one v_start (b ∷ rest)

-- `sorted_series[-1]`, of a list that is not empty.
abbrev pub last_time : ℕ → List ValuePoint → ℕ
last_time ts [] = ts
last_time ts (vp ∷ series) = last_time vp.timestamp series

abbrev pub sorted_flows : List Cashflow → Keyed ℤ
sorted_flows cashflows = net_flows (sort (by_key flow_time) cashflows) []

-- The boundaries of the sub-periods of a series that is not empty.
abbrev pub bounds_of : ValuePoint → List ValuePoint → Keyed ℤ → List ℕ
bounds_of vp rest cf_by_ts = boundaries vp.timestamp (last_time vp.timestamp rest) cf_by_ts

abbrev pub of_sorted : List ValuePoint → Keyed ℤ → Option Ratio
of_sorted [] cf_by_ts = none
of_sorted (vp ∷ rest) cf_by_ts =
    from_start (latest_value (pos 0) (vp ∷ rest)) cf_by_ts (bounds_of vp rest cf_by_ts)

unfoldable pub compute_twr : List ValuePoint → List Cashflow → Option Ratio
unfolding latest_value net_flows boundaries chain sort
compute_twr value_series cashflows =
    of_sorted (sort (by_key at_time) value_series) (sorted_flows cashflows)
