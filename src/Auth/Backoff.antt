-- ===== src/Auth/Backoff.antt =====
-- The progressive backoff of `LoginRateLimiter.check`.
use Prim.Native.Nat.{zero, suc}
use native.Mathlib.Nat.{pow-suc}
use assetlog.Prelude.{ℕ, ◌-◌, ◌*◌, ◌/◌, ◌^◌, ◌≤◌, min, arith}
use assetlog.Auth.Limiter.{Limits, retry_after}

one-le-pow : (n : ℕ) → 1 ≤ 2 ^ n
one-le-pow zero = omega arith
one-le-pow (suc n) = omega (arith, one-le-pow n, pow-suc 2 n)

pow_mono : (m n : ℕ) → m ≤ n → 2 ^ m ≤ 2 ^ n
pow_mono zero n h = one-le-pow n
pow_mono (suc m) zero h = absurd (omega arith)
pow_mono (suc m) (suc n) h = omega (arith, pow_mono m n (omega arith), pow-suc 2 m, pow-suc 2 n)

multiplier : ℕ → ℕ
multiplier e = min (2 ^ e) 64

multiplier_pos : (e : ℕ) → 1 ≤ multiplier e
unfolding multiplier
multiplier_pos e = omega (arith, one-le-pow e)

multiplier_mono : (m n : ℕ) → m ≤ n → multiplier m ≤ multiplier n
unfolding multiplier
multiplier_mono m n h = omega (arith, pow_mono m n h)

capped_mono : (w a b : ℕ) → a ≤ b → min (w * a) 3600 ≤ min (w * b) 3600
capped_mono w a b h = grind arith

capped_ge : (w a : ℕ) → 1 ≤ a → min w 3600 ≤ min (w * a) 3600
capped_ge w a h = grind arith

-- The wait is at least the window, where the window is at most an hour, and never above an hour.
pub retry_after_bounds :
    (l : Limits) (failures : ℕ)
    → (min l.per_ip_window 3600 ≤ retry_after l failures) × (retry_after l failures ≤ 3600)
unfolding retry_after multiplier
retry_after_bounds l failures =
    let e = (failures - l.per_ip_max) / 5 in
    (capped_ge l.per_ip_window (multiplier e) (multiplier_pos e), omega arith)

-- More failures never shorten the wait.
pub retry_after_mono : (l : Limits) (f g : ℕ) → f ≤ g → retry_after l f ≤ retry_after l g
unfolding retry_after multiplier
retry_after_mono l f g h =
    let a = (f - l.per_ip_max) / 5 in
    let b = (g - l.per_ip_max) / 5 in
    capped_mono l.per_ip_window (multiplier a) (multiplier b) (multiplier_mono a b (omega arith))
