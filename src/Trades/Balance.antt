-- ===== src/Trades/Balance.antt =====
-- What the running-balance check of the imports decides.
use assetlog.Prelude.{
  ℕ, zero, suc, ◌≡◌, ◌↔◌, refl, none, some, List, [], ◌∷◌, take, get_elem?, arith, Bool-cases, inl,
  inr, if◌then◌else◌,
}
use assetlog.Prelude.Int.{ℤ, pos, ◌+ℤ◌, ◌≤ℤ◌, ltb_ℤ, int_laws}
use assetlog.Prelude.Sums.{sum_of}
use assetlog.Trades.Timeline.{Proxy, signed, step, first_negative}

-- The balance after the first `n` trades.
abbrev pub balance_after : ℤ → List Proxy → ℕ → ℤ
balance_after start trades n = start +ℤ sum_of signed (take n trades)

balance_zero : (start : ℤ) (trades : List Proxy) → balance_after start trades 0 ≡ start
unfolding sum_of
balance_zero start trades = omega int_laws

balance_suc :
    (start : ℤ) (p : Proxy) (trades : List Proxy) (n : ℕ)
    → balance_after start (p ∷ trades) (suc n) ≡ balance_after (start +ℤ signed p) trades n
unfolding sum_of
balance_suc start p trades n = omega int_laws

step-eq-add : (start : ℤ) (p : Proxy) → step start p ≡ start +ℤ signed p
step-eq-add start p = grind int_laws

first_negative-cons :
    (start : ℤ) (p : Proxy) (trades : List Proxy)
    → first_negative start (p ∷ trades) ≡ (
        if ltb_ℤ (start +ℤ signed p) (pos 0)
        then some p
        else first_negative (start +ℤ signed p) trades)
unfolding first_negative
first_negative-cons start p trades = rw (step-eq-add start p)

passes-nonneg :
    (start : ℤ) (trades : List Proxy)
    → pos 0 ≤ℤ start
    → first_negative start trades ≡ none
    → (n : ℕ) → pos 0 ≤ℤ balance_after start trades n
passes-nonneg start trades h e zero = rw (balance_zero start trades) h
passes-nonneg start [] h e (suc n) = rw (balance_zero start []) h
passes-nonneg start (p ∷ trades) h e (suc n) = rw (balance_suc start p trades n) (
    passes-nonneg (start +ℤ signed p) trades (ground (arith, first_negative-cons start p trades))
      (ground (arith, first_negative-cons start p trades)) n)

nonneg-passes :
    (start : ℤ) (trades : List Proxy)
    → ((n : ℕ) → pos 0 ≤ℤ balance_after start trades n)
    → first_negative start trades ≡ none
unfolding first_negative
nonneg-passes start [] all = refl
nonneg-passes start (p ∷ trades) all =
    let first : pos 0 ≤ℤ start +ℤ signed p =
      rw (← balance_zero (start +ℤ signed p) trades, ← balance_suc start p trades 0) (all 1) in
    let later =
      nonneg-passes (start +ℤ signed p) trades
        (λ n. rw (balance_suc start p trades n) at (all (suc n))) in
    ground (arith, first_negative-cons start p trades, first, later)

-- The check passes exactly if the balance is at 0 or above after each trade.
pub first_negative-none :
    (start : ℤ) (trades : List Proxy)
    → pos 0 ≤ℤ start
    → (first_negative start trades ≡ none) ↔ ((n : ℕ) → pos 0 ≤ℤ balance_after start trades n)
first_negative-none start trades h =
    (λ e n. passes-nonneg start trades h e n, λ all. nonneg-passes start trades all)

-- A check that fails names a trade after which the balance is below 0, with none before it.
pub first_negative-some :
    (start : ℤ) (trades : List Proxy) (p : Proxy)
    → first_negative start trades ≡ some p
    → (n : ℕ) × (get_elem? trades n ≡ some p)
      × ¬ (pos 0 ≤ℤ balance_after start trades (suc n))
      × (first_negative start (take n trades) ≡ none)
unfolding first_negative
first_negative-some start [] p e = cc
first_negative-some start (q ∷ trades) p e = elim (Bool-cases (ltb_ℤ (start +ℤ signed q) (pos 0))) [
  | inl below ↦ (
    0,
    ground (arith, first_negative-cons start q trades),
    rw (balance_suc start q trades 0, balance_zero (start +ℤ signed q) trades) (ground arith),
    refl,
  )
  | inr above ↦
      let (n, at, negative, before) =
        first_negative-some (start +ℤ signed q) trades p
          (ground (arith, first_negative-cons start q trades)) in
      (
        suc n,
        at,
        rw (balance_suc start q trades (suc n)) negative,
        ground (arith, first_negative-cons start q (take n trades)),
      )
]
