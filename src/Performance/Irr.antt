-- ===== src/Performance/Irr.antt =====
-- What a money-weighted return certifies, whatever the floats do.
use assetlog.Prelude.{
  ℕ, zero, suc, ◌≡◌, refl, sym, Bool, true, false, Option, none, some, List, ◌⊎◌, inl, inr,
  Bool-cases, Option-cases,
}
use assetlog.Prelude.Int.{ℤ}
use assetlog.Performance.Flows.{Cashflow}
use assetlog.Performance.Mwr.{
  Floats, Payment, sorted_payments, reference_date, all_payments, both_signs, npv, dnpv, newton,
  bisect, fallback, solve, compute_mwr,
}

some_inj : {A : Type 0} (a b : A) → some a ≡ some b → a ≡ b
some_inj a b e = cc

none_some : {A P : Type 0} (a : A) → none ≡ some a → P
none_some a e = cc

module _ (floats : Floats) where
  open floats use {
    F, add, sub, mul, div, abs, less, at_most, is_zero, nought, two, tol, seed, narrow, rounded,
    floor_rate, bracket_low, bracket_high,
  }

  module _ (ref_date : ℕ) (ps : List Payment) where
    -- The present value of the payments at a rate is within the tolerance of zero.
    abbrev pub IsRoot : F → Type 0
    IsRoot r = less (abs (npv floats ref_date ps r)) tol ≡ true

    -- The present values at two rates are of opposite signs.
    abbrev pub opposite : F → F → Bool
    opposite a b = less (mul (npv floats ref_date ps a) (npv floats ref_date ps b)) nought

    abbrev pub middle : F → F → F
    middle lo hi = div (add lo hi) two

    -- The brackets that halving reaches from -0.99 and 10, where the present values are not of the same
    -- sign: the lower half if its ends are of opposite signs, and else the upper half. A middle that is
    -- within the tolerance is the end of it.
    pub data Bracket : F → F → Type 0 where
      whole :
          less nought
              (mul (npv floats ref_date ps bracket_low) (npv floats ref_date ps bracket_high))
            ≡ false
          → Bracket bracket_low bracket_high
      lower :
          (lo hi : F)
          → Bracket lo hi
          → less (abs (npv floats ref_date ps (middle lo hi))) tol ≡ false
          → opposite lo (middle lo hi) ≡ true
          → Bracket lo (middle lo hi)
      upper :
          (lo hi : F)
          → Bracket lo hi
          → less (abs (npv floats ref_date ps (middle lo hi))) tol ≡ false
          → opposite lo (middle lo hi) ≡ false
          → Bracket (middle lo hi) hi

    -- The middle of such a bracket that is narrower than the bound.
    abbrev pub IsPinned : F → Type 0
    IsPinned r =
        (lo : F) × (hi : F) × Bracket lo hi × (less (sub hi lo) narrow ≡ true) × (r ≡ middle lo hi)

    newton-IsRoot : (rounds : ℕ) (r x : F) → newton floats ref_date ps rounds r ≡ some x → IsRoot x
    unfolding newton
    newton-IsRoot zero r x e = cc
    newton-IsRoot (suc rounds) r x e =
        let f = npv floats ref_date ps r in
        let df = dnpv floats ref_date ps r in
        let r_new = sub r (div f df) in
        elim (Bool-cases (less (abs f) tol)) [
          | inl root ↦ let same : r ≡ x = some_inj r x (rw root at e) in rw (← same) root
          | inr far ↦ elim (Bool-cases (is_zero df)) [
            | inl flat ↦ none_some x (rw (far, flat) at e)
            | inr slope ↦ elim (Bool-cases (at_most r_new floor_rate)) [
              | inl low ↦ none_some x (rw (far, slope, low) at e)
              | inr on ↦ newton-IsRoot rounds r_new x (rw (far, slope, on) at e)
            ]
          ]
        ]

    bisect_lem :
        (rounds : ℕ) (lo hi x : F)
        → Bracket lo hi
        → bisect floats ref_date ps rounds lo hi (npv floats ref_date ps lo) ≡ some x
        → IsRoot x ⊎ IsPinned x
    unfolding bisect
    bisect_lem zero lo hi x b e = cc
    bisect_lem (suc rounds) lo hi x b e =
        let mid = middle lo hi in
        let f_lo = npv floats ref_date ps lo in
        let f_mid = npv floats ref_date ps mid in
        elim (Bool-cases (less (abs f_mid) tol)) [
          | inl root ↦ let same : mid ≡ x = some_inj mid x (rw root at e) in inl (rw (← same) root)
          | inr far ↦ elim (Bool-cases (less (sub hi lo) narrow)) [
            | inl close ↦
                let same : mid ≡ x = some_inj mid x (rw (far, close) at e) in
                inr (lo, hi, b, close, sym same)
            | inr wide ↦ elim (Bool-cases (less (mul f_lo f_mid) nought)) [
              | inl left ↦
                  bisect_lem rounds lo mid x (lower lo hi b far left) (rw (far, wide, left) at e)
              | inr right ↦
                  bisect_lem rounds mid hi x (upper lo hi b far right) (rw (far, wide, right) at e)
            ]
          ]
        ]

    abbrev pub Certified : F → Type 0
    Certified x = (r : F) × (x ≡ rounded r) × (IsRoot r ⊎ IsPinned r)

    fallback-Certified :
        (found : Option F) (x : F)
        → ((r : F) → found ≡ some r → IsRoot r)
        → fallback floats ref_date ps found ≡ some x
        → Certified x
    fallback-Certified (some r) x root e = (r, sym (some_inj (rounded r) x e), inl (root r refl))
    fallback-Certified none x root e =
        let f_lo = npv floats ref_date ps bracket_low in
        let f_hi = npv floats ref_date ps bracket_high in
        elim (Bool-cases (less nought (mul f_lo f_hi))) [
          | inl same_sign ↦ none_some x (rw same_sign at e)
          | inr signs ↦
              elim (Option-cases (bisect floats ref_date ps 200 bracket_low bracket_high f_lo)) [
                | inl lost ↦ none_some x (rw (signs, lost) at e)
                | inr (mid, there) ↦ (
                  mid,
                  sym (some_inj (rounded mid) x (rw (signs, there) at e)),
                  bisect_lem 200 bracket_low bracket_high mid (whole signs) there,
                )
              ]
        ]

    solve_lem : (x : F) → solve floats ref_date ps ≡ some x → (both_signs ps ≡ true) × Certified x
    solve_lem x e = elim (Bool-cases (both_signs ps)) [
      | inl both ↦ (
        both,
        fallback-Certified (newton floats ref_date ps 100 seed) x
            (λ r found. newton-IsRoot 100 seed r found) (rw both at e),
      )
      | inr one_way ↦ none_some x (rw one_way at e)
    ]

  -- A money-weighted return is reported only for payments in both directions, and it is the rounding
  -- of a rate at which their present value is within the tolerance of zero, or of the middle of a
  -- bracket of rates narrower than 10^-12 that halving reaches from -0.99 and 10, where the values are
  -- not of the same sign, by the lower half where its ends are of opposite signs and else the upper.
  pub compute_mwr_lem :
      (cashflows : List Cashflow) (terminal_value : ℤ) (terminal_date : ℕ) (initial_value : ℤ)
      (initial_date : Option ℕ) (x : F)
      → compute_mwr floats cashflows terminal_value terminal_date initial_value initial_date
        ≡ some x
      → let ps =
          sorted_payments cashflows terminal_value terminal_date initial_value initial_date in
        let paid = all_payments ps terminal_date initial_value initial_date in
        (both_signs paid ≡ true)
        × Certified (reference_date ps terminal_date initial_value initial_date) paid x
  unfolding compute_mwr
  compute_mwr_lem cashflows terminal_value terminal_date initial_value initial_date x e =
      let ps = sorted_payments cashflows terminal_value terminal_date initial_value initial_date in
      solve_lem (reference_date ps terminal_date initial_value initial_date)
        (all_payments ps terminal_date initial_value initial_date) x e
