-- ===== src/Risk/Worst.antt =====
-- The maximum drawdown is the greatest of all drawdowns between an earlier and a later sample
-- (`_max_drawdown` of backend/app/services/risk.py).
use mathlib.Core.Path.{subst}
use assetlog.Prelude.{
  ℕ, ◌≤◌, ◌<◌, ◌≡◌, refl, ap, sym, Option, none, some, List, [], ◌∷◌, All, All-mono, filter, length,
  ltb, ◌⊎◌, inl, inr, arith, Bool-cases,
}
use assetlog.Performance.Series.{ValuePoint}
use assetlog.Risk.Drawdown.{
  Drawdown, drawdown, Scan, is_sample, scan, start, no_loss, or_no_loss, outcome, max_drawdown,
}
use assetlog.Risk.Fractions.{Within-rising}
-- A drawdown and a time are of an earlier and a later sample of the list.
use assetlog.Risk.Found.{
  Before, Pairs, IsSample, stepped, scanned, Source, Found, positive_val, samples_of, scan-filter,
  scan-Found,
}

-- How a maximum drawdown of the samples reads: none for fewer than two of them; or no drawdown
-- between two of them is deeper, and it is no loss or the drawdown from one sample to a later one
-- with that one's time.
abbrev pub Worst : List ValuePoint → Option Drawdown × Option ℕ → Type 0
Worst xs (none, t) = (length xs < 2) × (t ≡ none)
Worst xs (some d, t) =
    (2 ≤ length xs)
    × Pairs (some d) xs
    × (((d ≡ no_loss) × (t ≡ none))
        ⊎ ((u : ValuePoint) × (w : ValuePoint) × Before u w xs
            × (d ≡ drawdown u w)
            × (t ≡ some w.timestamp)))

rising-Pairs : (d : Drawdown) (xs : List ValuePoint) → Pairs none xs → Pairs (some d) xs
rising-Pairs d [] h = tt
rising-Pairs d (x ∷ xs) h =
    (All-mono _ _ xs (λ w k. Within-rising (some d) x w k) h.0, rising-Pairs d xs h.1)

some_inj : (a b : Drawdown) → some a ≡ some b → a ≡ b
some_inj a b e = cc

chosen-Worst :
    (xs : List ValuePoint) (m : Option Drawdown) (t : Option ℕ) (n : ℕ)
    → 2 ≤ length xs
    → Pairs m xs
    → Source xs none none (record { peak = none; mdd = m; trough_at = t; sample_count = n })
    → Worst xs (some (or_no_loss m), t)
chosen-Worst xs none t n two pairs (inl (e, f)) =
    (two, rising-Pairs no_loss xs pairs, inl (refl, f))
chosen-Worst xs none t n two pairs (inr (u, w, there, e, f)) = cc
chosen-Worst xs (some d) t n two pairs (inl (e, f)) = cc
chosen-Worst xs (some d) t n two pairs (inr (u, w, there, e, f)) =
    (two, pairs, inr (u, w, there, some_inj d (drawdown u w) e, f))

outcome-Worst :
    (x : ValuePoint) (vs : List ValuePoint) (out : Scan)
    → Found x none none 1 vs out
    → Worst (x ∷ vs) (outcome out)
outcome-Worst x vs out (le, ok, all, pairs, source, count) =
    elim (Bool-cases (ltb out.sample_count 2)) [
      | inl few ↦ rw few (ground (arith, count, few), refl)
      | inr many ↦ rw many (
          chosen-Worst (x ∷ vs) out.mdd out.trough_at 0 (ground (arith, count, many)) (all, pairs)
            source)
    ]

samples-Worst : (xs : List ValuePoint) → All IsSample xs → Worst xs (outcome (scan xs start))
unfolding scan
samples-Worst [] h = (omega arith, refl)
samples-Worst (x ∷ vs) h =
    let same : stepped x start ≡ scanned x none none 1 = rw h.0 refl in
    subst (λ out. Worst (x ∷ vs) (outcome out)) (sym (ap (scan vs) same))
      (outcome-Worst x vs (scan vs (scanned x none none 1))
        (scan-Found x none none 1 vs (positive_val x h.0) tt h.1))

-- The one pass over the series finds the maximum drawdown of its positive values: none if there are
-- fewer than two, and else no fall from one of them to a later one is a greater share of the
-- earlier, and it is such a fall, with the time of the later value, or zero.
pub max_drawdown_lem :
    (value_series : List ValuePoint)
    → Worst (filter is_sample value_series) (max_drawdown value_series)
unfolding max_drawdown
max_drawdown_lem value_series =
    subst (λ out. Worst (filter is_sample value_series) (outcome out))
      (sym (scan-filter value_series start))
      (samples-Worst (filter is_sample value_series) (samples_of value_series))
