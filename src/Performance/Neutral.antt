-- ===== src/Performance/Neutral.antt =====
-- Cash flows alone give no return: the time-weighted return measures the market only.
use assetlog.Prelude.{ℕ, ◌≡◌, refl, false, Option, none, some, List, [], ◌∷◌, arith}
use assetlog.Prelude.Int.{ℤ, pos, negsuc, ◌+ℤ◌, ◌*ℤ◌, leb_ℤ, int_laws}
use assetlog.Prelude.Keyed.{Keyed, at_key_or}
use assetlog.Prelude.Sorting.{sort, by_key}
use assetlog.Performance.Flows.{Cashflow}
use assetlog.Performance.Series.{ValuePoint}
use assetlog.Performance.Twr.{
  Ratio, quotient, one, one_plus, less_one, times, at_time, latest_value, chain, from_start,
  bounds_of, of_sorted, sorted_flows, compute_twr,
}

abbrev pub IsZero : Option Ratio → Type 0
IsZero none = ⊥
IsZero (some r) = r.num ≡ pos 0

-- A fraction that is one.
abbrev IsOne : Ratio → Type 0
IsOne r = r.num ≡ pos r.den

less_one-IsOne : (r : Ratio) → IsOne r → (less_one r).num ≡ pos 0
less_one-IsOne r e = rw e (omega int_laws)

one_plus-less_one : (v : ℤ) → leb_ℤ v (pos 0) ≡ false → IsOne (one_plus (less_one (quotient v v)))
one_plus-less_one (pos n) up = omega int_laws
one_plus-less_one (negsuc n) up = absurd (ground (arith, up))

times-IsOne : (r s : Ratio) → IsOne r → IsOne s → IsOne (times r s)
unfolding ◌*ℤ◌
times-IsOne r s e f = rw (e, f) (ground arith)

module _ (value : ℕ → ℤ) (cf_by_ts : Keyed ℤ) where
  abbrev Positive : ℤ → Type 0
  Positive v = leb_ℤ v (pos 0) ≡ false

  -- From each boundary to the next the market moves nothing: the value before the flow of the next
  -- is the value after the flow of this one. No value after a flow is zero or less.
  abbrev Steady : ℤ → List ℕ → Type 0
  Steady v [] = Unit
  Steady v (b ∷ bs) =
      (value b +ℤ at_key_or b (pos 0) cf_by_ts ≡ v) × Positive (value b) × Steady (value b) bs

  abbrev pub Unmoved : List ℕ → Type 0
  Unmoved [] = Unit
  Unmoved (b ∷ bs) = Positive (value b) × Steady (value b) bs

  chain-IsZero :
      (cumulative : Ratio) (v : ℤ) (bs : List ℕ)
      → IsOne cumulative
      → Positive v
      → Steady v bs
      → IsZero (chain value cf_by_ts cumulative v bs)
  unfolding chain
  chain-IsZero cumulative v [] is_one up h = less_one-IsOne cumulative is_one
  chain-IsZero cumulative v (b ∷ bs) is_one up h =
      let on =
        chain-IsZero (times cumulative (one_plus (less_one (quotient v v)))) (value b) bs
          (times-IsOne cumulative _ is_one (one_plus-less_one v up)) h.1 h.2 in
      rw (up, h.1, h.0) on

  from_start-IsZero : (bs : List ℕ) → Unmoved bs → IsZero (from_start value cf_by_ts bs)
  from_start-IsZero [] h = refl
  from_start-IsZero (b ∷ []) h = refl
  from_start-IsZero (b ∷ c ∷ bs) h = rw h.0 (chain-IsZero one (value b) (c ∷ bs) refl h.0 h.1)

-- The series has a value, and the market moves nothing between the boundaries of its sub-periods.
abbrev pub NoMarketMove : List ValuePoint → Keyed ℤ → Type 0
NoMarketMove [] cf_by_ts = ⊥
NoMarketMove (vp ∷ rest) cf_by_ts =
    Unmoved (latest_value (pos 0) (vp ∷ rest)) cf_by_ts (bounds_of vp rest cf_by_ts)

of_sorted-IsZero :
    (series : List ValuePoint) (cf_by_ts : Keyed ℤ)
    → NoMarketMove series cf_by_ts
    → IsZero (of_sorted series cf_by_ts)
of_sorted-IsZero [] cf_by_ts h = absurd h
of_sorted-IsZero (vp ∷ rest) cf_by_ts h =
    from_start-IsZero (latest_value (pos 0) (vp ∷ rest)) cf_by_ts (bounds_of vp rest cf_by_ts) h

-- If between the boundaries of the sub-periods the value changes by the cash flows alone, and it is
-- positive at each boundary, the time-weighted return is zero, whatever was paid in or taken out.
pub compute_twr-neutral :
    (value_series : List ValuePoint) (cashflows : List Cashflow)
    → NoMarketMove (sort (by_key at_time) value_series) (sorted_flows cashflows)
    → IsZero (compute_twr value_series cashflows)
unfolding compute_twr
compute_twr-neutral value_series cashflows h =
    of_sorted-IsZero (sort (by_key at_time) value_series) (sorted_flows cashflows) h
