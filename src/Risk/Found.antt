-- ===== src/Risk/Found.antt =====
-- What the loop of `_max_drawdown` finds from a peak on, and that it skips what is no sample
-- (backend/app/services/risk.py).
use mathlib.Core.Path.{subst}
use assetlog.Prelude.{
  ℕ, suc, ◌+◌, ◌≤◌, ◌<◌, ◌≡◌, refl, ap, ◌∙◌, sym, true, false, Option, some, List, [], ◌∷◌, All,
  All-mono, filter, length, ltb, ◌⊎◌, inl, inr, arith, Bool-cases, if◌then◌else◌,
}
use assetlog.Prelude.Int.{ℤ, pos, negsuc, pos_part, leb_ℤ}
use assetlog.Performance.Series.{ValuePoint}
use assetlog.Risk.Drawdown.{Drawdown, val, drawdown, deeper, Scan, against, is_sample, scan}
use assetlog.Risk.Fractions.{
  Within, Proper, AtMost, AtMost-self, AtMost-trans, Within-AtMost, Within-lower, worse, worse_new,
  worse_old, worse-Proper, Within-rising,
}

-- A drawdown and a time are of an earlier and a later sample of the list.
abbrev pub Among : ValuePoint → List ValuePoint → Type 0
Among w [] = ⊥
Among w (x ∷ xs) = (w ≡ x) ⊎ Among w xs

abbrev pub Before : ValuePoint → ValuePoint → List ValuePoint → Type 0
Before u w [] = ⊥
Before u w (x ∷ xs) = ((u ≡ x) × Among w xs) ⊎ Before u w xs

abbrev pub Pairs : Option Drawdown → List ValuePoint → Type 0
Pairs m [] = Unit
Pairs m (x ∷ xs) = All (λ w. Within m x w) xs × Pairs m xs

abbrev pub IsSample : ValuePoint → Type 0
IsSample vp = is_sample vp ≡ true

positive_part : (v : ℤ) → leb_ℤ v (pos 0) ≡ false → 0 < pos_part v
positive_part (pos n) h = ground (arith, h)
positive_part (negsuc n) h = absurd (ground (arith, h))

pub positive_val : (vp : ValuePoint) → IsSample vp → 0 < val vp
positive_val vp h = positive_part vp.value (ground (arith, h))

pub samples_of : (series : List ValuePoint) → All IsSample (filter is_sample series)
unfolding filter
samples_of [] = tt
samples_of (vp ∷ series) = elim (Bool-cases (is_sample vp)) [
  | inl e ↦ rw e (e, samples_of series)
  | inr e ↦ rw e (samples_of series)
]

abbrev pub stepped : ValuePoint → Scan → Scan
stepped vp s = if is_sample vp then against s.peak vp s else s

pub scan-filter :
    (series : List ValuePoint) (s : Scan) → scan series s ≡ scan (filter is_sample series) s
unfolding scan filter
scan-filter [] s = refl
scan-filter (vp ∷ series) s = elim (Bool-cases (is_sample vp)) [
  | inl e ↦
      let kept : filter is_sample (vp ∷ series) ≡ vp ∷ filter is_sample series = rw e refl in
      scan-filter series (stepped vp s) ∙ ap (λ l. scan l s) (sym kept)
  | inr e ↦
      let same : stepped vp s ≡ s = rw e refl in
      let dropped : filter is_sample (vp ∷ series) ≡ filter is_sample series = rw e refl in
      ap (scan series) same ∙ scan-filter series s ∙ ap (λ l. scan l s) (sym dropped)
]

abbrev pub scanned : ValuePoint → Option Drawdown → Option ℕ → ℕ → Scan
scanned p m t n = record { peak = some p; mdd = m; trough_at = t; sample_count = n }

-- Where a drawdown and its time come from: they are what they were, or of two of the samples.
abbrev pub Source : List ValuePoint → Option Drawdown → Option ℕ → Scan → Type 0
Source xs m t out =
    ((out.mdd ≡ m) × (out.trough_at ≡ t))
    ⊎ ((u : ValuePoint) × (w : ValuePoint) × Before u w xs
        × (out.mdd ≡ some (drawdown u w))
        × (out.trough_at ≡ some w.timestamp))

Before-skip :
    (u w p v : ValuePoint) (xs : List ValuePoint) → Before u w (p ∷ xs) → Before u w (p ∷ v ∷ xs)
Before-skip u w p v xs (inl (e, there)) = inl (e, inr there)
Before-skip u w p v xs (inr there) = inr (inr there)

Source-skip :
    (p v : ValuePoint) (xs : List ValuePoint) (m : Option Drawdown) (t : Option ℕ) (out : Scan)
    → Source (p ∷ xs) m t out
    → Source (p ∷ v ∷ xs) m t out
Source-skip p v xs m t out (inl same) = inl same
Source-skip p v xs m t out (inr (u, w, there, e, f)) =
    inr (u, w, Before-skip u w p v xs there, e, f)

Source-higher :
    (p v : ValuePoint) (xs : List ValuePoint) (m : Option Drawdown) (t : Option ℕ) (out : Scan)
    → Source (v ∷ xs) m t out
    → Source (p ∷ v ∷ xs) m t out
Source-higher p v xs m t out (inl same) = inl same
Source-higher p v xs m t out (inr (u, w, there, e, f)) = inr (u, w, inr there, e, f)

-- What the loop finds from a peak on.
abbrev pub Found : ValuePoint → Option Drawdown → Option ℕ → ℕ → List ValuePoint → Scan → Type 0
Found p m t n vs out =
    AtMost m out.mdd
    × Proper out.mdd
    × All (λ w. Within out.mdd p w) vs
    × Pairs out.mdd vs
    × Source (p ∷ vs) m t out
    × (out.sample_count ≡ n + length vs)

Found-higher :
    (p v : ValuePoint) (m : Option Drawdown) (t : Option ℕ) (n : ℕ) (vs : List ValuePoint)
    (out : Scan)
    → val p < val v
    → Found v m t (suc n) vs out
    → Found p m t n (v ∷ vs) out
Found-higher p v m t n vs out up (le, ok, all, pairs, source, count) = (
  le,
  ok,
  (
    Within-rising out.mdd p v (omega (arith, up)),
    All-mono _ _ vs (λ w k. Within-lower out.mdd p v w (omega (arith, up)) (omega (arith, up)) k)
        all,
  ),
  (all, pairs),
  Source-higher p v vs m t out source,
  omega (arith, count),
)

abbrev time_after : ValuePoint → ValuePoint → Option Drawdown → Option ℕ → Option ℕ
time_after p v m t = if deeper (drawdown p v) m then some v.timestamp else t

Source-below :
    (p v : ValuePoint) (xs : List ValuePoint) (m : Option Drawdown) (t : Option ℕ) (out : Scan)
    → Source (p ∷ xs) (worse (drawdown p v) m) (time_after p v m t) out
    → Source (p ∷ v ∷ xs) m t out
Source-below p v xs m t out (inl (e, f)) = elim (Bool-cases (deeper (drawdown p v) m)) [
  | inl yes_new ↦ inr (p, v, inl (refl, inl refl), rw yes_new at e, rw yes_new at f)
  | inr old ↦ inl (rw old at e, rw old at f)
]
Source-below p v xs m t out (inr (u, w, there, e, f)) =
    inr (u, w, Before-skip u w p v xs there, e, f)

Found-below :
    (p v : ValuePoint) (m : Option Drawdown) (t : Option ℕ) (n : ℕ) (vs : List ValuePoint)
    (out : Scan)
    → 0 < val p
    → val v ≤ val p
    → Proper m
    → Found p (worse (drawdown p v) m) (time_after p v m t) (suc n) vs out
    → Found p m t n (v ∷ vs) out
Found-below p v m t n vs out up low okm (le, ok, all, pairs, source, count) =
    let d = drawdown p v in
    let okw = worse-Proper d m up okm in
    (
      AtMost-trans m (worse d m) out.mdd okw (worse_old d m) le,
      ok,
      (Within-AtMost (worse d m) out.mdd p v okw le (worse_new p v m), all),
      (All-mono _ _ vs (λ w k. Within-lower out.mdd v p w up low k) all, pairs),
      Source-below p v vs m t out source,
      omega (arith, count),
    )

pub scan-Found :
    (p : ValuePoint) (m : Option Drawdown) (t : Option ℕ) (n : ℕ) (vs : List ValuePoint)
    → 0 < val p
    → Proper m
    → All IsSample vs
    → Found p m t n vs (scan vs (scanned p m t n))
unfolding scan
scan-Found p m t n [] up ok h = (AtMost-self m, ok, tt, tt, inl (refl, refl), omega arith)
scan-Found p m t n (v ∷ vs) up ok h = elim (Bool-cases (ltb (val p) (val v))) [
  | inl higher ↦
      let same : stepped v (scanned p m t n) ≡ scanned v m t (suc n) = rw (h.0, higher) refl in
      subst (Found p m t n (v ∷ vs)) (sym (ap (scan vs) same)) (
        Found-higher p v m t n vs (scan vs (scanned v m t (suc n))) (ground arith)
          (scan-Found v m t (suc n) vs (positive_val v h.0) ok h.1))
  | inr low ↦
      let m' = worse (drawdown p v) m in
      let t' = time_after p v m t in
      let same : stepped v (scanned p m t n) ≡ scanned p m' t' (suc n) = rw (h.0, low) refl in
      subst (Found p m t n (v ∷ vs)) (sym (ap (scan vs) same)) (
        Found-below p v m t n vs (scan vs (scanned p m' t' (suc n))) up (ground arith) ok
          (scan-Found p m' t' (suc n) vs up (worse-Proper (drawdown p v) m up ok) h.1))
]
