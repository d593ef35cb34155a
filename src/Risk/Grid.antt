-- ===== src/Risk/Grid.antt =====
-- `_daily_grid` of backend/app/services/benchmark.py.
use assetlog.Prelude.{
  ℕ, zero, suc, ◌+◌, ◌-◌, ◌*◌, ◌/◌, ◌≤◌, ◌<◌, ◌≡◌, refl, ap, ◌∙◌, List, [], ◌∷◌, ◌++◌, ltb, leb,
  ◌==◌, arith, inl, inr, Bool-cases, if◌then◌else◌, true, false,
}

-- A day is 86,400,000,000 microseconds; `.replace(hour=0, minute=0, second=0, microsecond=0)`.
abbrev pub midnight : ℕ → ℕ
midnight day = day * 86_400_000_000

abbrev pub day_of : ℕ → ℕ
day_of at = at / 86_400_000_000

abbrev pub last_of : ℕ → List ℕ → ℕ
last_of t [] = t
last_of t (x ∷ xs) = last_of x xs

-- The loop `while cursor <= end_utc`, with a bound on its rounds; a loop that meets the bound has
-- not ended, and gives none of the days after it.
unfoldable pub days_until : ℕ → ℕ → ℕ → List ℕ
days_until zero cursor end_utc = []
days_until (suc fuel) cursor end_utc =
    let rest = days_until fuel (cursor + 86_400_000_000) end_utc in
    if leb cursor end_utc then cursor ∷ rest else []

-- `if out[-1] != end_utc`
abbrev pub with_end : ℕ → List ℕ → List ℕ
with_end end_utc out = if last_of 0 out == end_utc then out else out ++ end_utc ∷ []

-- Each round moves on by a day, so the days between the two and one suffice.
unfoldable pub daily_grid : ℕ → ℕ → List ℕ
unfolding days_until
daily_grid start end =
    let start_utc = midnight (day_of start) in
    let end_utc = midnight (day_of end) in
    if leb end_utc start_utc
    then start_utc ∷ end_utc ∷ []
    else with_end end_utc (days_until (suc (day_of end - day_of start)) start_utc end_utc)

-- `n + 1` midnights from a day on.
unfoldable pub midnights : ℕ → ℕ → List ℕ
midnights day zero = midnight day ∷ []
midnights day (suc n) = midnight day ∷ midnights (suc day) n

days_over : (fuel cursor end_utc : ℕ) → end_utc < cursor → days_until fuel cursor end_utc ≡ []
unfolding days_until
days_over zero cursor end_utc h = refl
days_over (suc fuel) cursor end_utc h =
    let over : leb cursor end_utc ≡ false = ground (arith, h) in rw over refl

-- With enough rounds the loop ends by its own test.
days_until-midnights :
    (n day fuel : ℕ)
    → n ≤ fuel
    → days_until (suc fuel) (midnight day) (midnight (day + n)) ≡ midnights day n
unfolding days_until midnights
days_until-midnights zero day fuel h =
    let on : leb (midnight day) (midnight (day + 0)) ≡ true = ground arith in
    rw on (
      ap (λ l. midnight day ∷ l)
        (days_over fuel (midnight day + 86_400_000_000) (midnight (day + 0)) (omega arith)))
days_until-midnights (suc n) day zero h = absurd (omega (arith, h))
days_until-midnights (suc n) day (suc fuel) h =
    let on : leb (midnight day) (midnight (day + suc n)) ≡ true = ground arith in
    let next : midnight day + 86_400_000_000 ≡ midnight (suc day) = omega arith in
    let same : day + suc n ≡ suc day + n = omega arith in
    let rest = days_until-midnights n (suc day) fuel (omega (arith, h)) in
    rw on (
      ap (λ l. midnight day ∷ l)
        (ap (λ t. days_until (suc fuel) t (midnight (day + suc n))) next
          ∙ ap (λ e. days_until (suc fuel) (midnight (suc day)) (midnight e)) same
          ∙ rest))

last_of-midnights : (t day n : ℕ) → last_of t (midnights day n) ≡ midnight (day + n)
unfolding midnights
last_of-midnights t day zero = omega arith
last_of-midnights t day (suc n) = last_of-midnights (midnight day) (suc day) n ∙ omega arith

-- From an earlier to a later day the grid is each midnight between the two, both included; else it
-- is the two midnights. The loop ends by itself: with any number of rounds more it gives the same.
pub daily_grid_lem :
    (start end more : ℕ)
    → let s = day_of start in
      let e = day_of end in
      (daily_grid start end
        ≡ (if ltb s e then midnights s (e - s) else midnight s ∷ midnight e ∷ []))
      × (days_until (suc (e - s + more)) (midnight s) (midnight (s + (e - s)))
          ≡ midnights s (e - s))
unfolding daily_grid
daily_grid_lem start end more =
    let s = day_of start in
    let e = day_of end in
    let loop = λ (fuel : ℕ) (enough : e - s ≤ fuel). days_until-midnights (e - s) s fuel enough in
    (
      elim (Bool-cases (ltb s e)) [
        | inl lt ↦
            let whole : s + (e - s) ≡ e = ground (arith, lt) in
            let same = rw whole at (loop (e - s) (omega arith)) in
            let up : leb (midnight e) (midnight s) ≡ false = ground (arith, lt) in
            let closed : (last_of 0 (midnights s (e - s)) == midnight e) ≡ true =
              ground (arith, last_of-midnights 0 s (e - s), whole) in
            rw (up, lt, same, closed) refl
        | inr ge ↦
            let down : leb (midnight e) (midnight s) ≡ true = ground (arith, ge) in
            rw (down, ge) refl
      ],
      loop (e - s + more) (omega arith),
    )
