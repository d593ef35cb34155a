-- ===== src/Risk/Fractions.antt =====
-- Drawdowns compared as fractions.
use native.Mathlib.Nat.{mul-le-mul_right, le_of_mul-le-mul_right}
use assetlog.Prelude.{
  ℕ, ◌+◌, ◌-◌, ◌*◌, ◌≤◌, ◌<◌, ◌≡◌, Option, none, some, leb, inl, inr, arith, Bool-cases,
  if◌then◌else◌,
}
use assetlog.Performance.Series.{ValuePoint}
use assetlog.Risk.Drawdown.{Drawdown, val, drawdown, deeper}

frac_trans : (a b c d e f : ℕ) → a * d ≤ c * b → c * f ≤ e * d → 0 < d → a * f ≤ e * b
frac_trans a b c d e f h k pos_d =
    le_of_mul-le-mul_right (omega (arith, mul-le-mul_right f h, mul-le-mul_right b k)) pos_d

fall_sum : (a b w : ℕ) → a ≤ b → a * (b + w) ≤ b * (a + w)
fall_sum a b w h = omega (arith, mul-le-mul_right w h)

-- A higher peak makes a deeper drawdown.
fall_mono : (u p w : ℕ) → u ≤ p → (u - w) * p ≤ (p - w) * u
fall_mono u p w h = elim (Bool-cases (leb u w)) [
  | inl rising ↦ let none_lost : u - w ≡ 0 = ground arith in rw none_lost (omega arith)
  | inr falling ↦
      let q = fall_sum (u - w) (p - w) w (omega (arith, h)) in
      let whole : p - w + w ≡ p = ground (arith, h) in
      let part : u - w + w ≡ u = ground (arith, h) in rw (whole, part) at q
]

-- No drawdown from one value to another is deeper.
abbrev pub Within : Option Drawdown → ValuePoint → ValuePoint → Type 0
Within none u w = val u ≤ val w
Within (some d) u w = (val u - val w) * d.peak ≤ d.fall * val u

abbrev pub Proper : Option Drawdown → Type 0
Proper none = Unit
Proper (some d) = 0 < d.peak

-- One drawdown is at most another.
abbrev pub AtMost : Option Drawdown → Option Drawdown → Type 0
AtMost none m = Unit
AtMost (some d) none = ⊥
AtMost (some d) (some e) = d.fall * e.peak ≤ e.fall * d.peak

pub AtMost-self : (m : Option Drawdown) → AtMost m m
AtMost-self none = tt
AtMost-self (some d) = omega arith

pub Within-AtMost :
    (m n : Option Drawdown) (u w : ValuePoint) → Proper m → AtMost m n → Within m u w → Within n u w
Within-AtMost none none u w ok le h = h
Within-AtMost none (some e) u w ok le h =
    let nothing : val u - val w ≡ 0 = ground (arith, h) in rw nothing (omega arith)
Within-AtMost (some d) none u w ok le h = absurd le
Within-AtMost (some d) (some e) u w ok le h =
    frac_trans (val u - val w) (val u) d.fall d.peak e.fall e.peak h le ok

pub AtMost-trans : (l m n : Option Drawdown) → Proper m → AtMost l m → AtMost m n → AtMost l n
AtMost-trans none m n ok h k = tt
AtMost-trans (some d) none n ok h k = absurd h
AtMost-trans (some d) (some e) none ok h k = absurd k
AtMost-trans (some d) (some e) (some f) ok h k =
    frac_trans d.fall d.peak e.fall e.peak f.fall f.peak h k ok

-- What is within from a peak is within from a lower value.
pub Within-lower :
    (m : Option Drawdown) (u p w : ValuePoint)
    → 0 < val p
    → val u ≤ val p
    → Within m p w
    → Within m u w
Within-lower none u p w up h k = omega (arith, h, k)
Within-lower (some d) u p w up h k =
    frac_trans (val u - val w) (val u) (val p - val w) (val p) d.fall d.peak
      (fall_mono (val u) (val p) (val w) h) k up

-- The greater of a drawdown so far and a new one.
abbrev pub worse : Drawdown → Option Drawdown → Option Drawdown
worse d m = if deeper d m then some d else m

pub worse_new : (p vp : ValuePoint) (m : Option Drawdown) → Within (worse (drawdown p vp) m) p vp
worse_new p vp none = omega arith
worse_new p vp (some m) = elim (Bool-cases (deeper (drawdown p vp) (some m))) [
  | inl yes_new ↦ rw yes_new (omega arith)
  | inr old ↦ rw old (ground (arith, old))
]

pub worse_old : (d : Drawdown) (m : Option Drawdown) → AtMost m (worse d m)
worse_old d none = tt
worse_old d (some m) = elim (Bool-cases (deeper d (some m))) [
  | inl yes_new ↦ rw yes_new (ground (arith, yes_new))
  | inr old ↦ rw old (omega arith)
]

pub worse-Proper : (d : Drawdown) (m : Option Drawdown) → 0 < d.peak → Proper m → Proper (worse d m)
worse-Proper d none pos_d ok = pos_d
worse-Proper d (some m) pos_d ok = elim (Bool-cases (deeper d (some m))) [
  | inl yes_new ↦ rw yes_new pos_d
  | inr old ↦ rw old ok
]

pub Within-rising : (m : Option Drawdown) (u w : ValuePoint) → val u ≤ val w → Within m u w
Within-rising none u w h = h
Within-rising (some d) u w h =
    let nothing : val u - val w ≡ 0 = ground (arith, h) in rw nothing (omega arith)
