-- ===== src/Cash/Rounding.antt =====
-- How far `quantize` moves a balance.
use assetlog.Prelude.{ℕ, String, ◌≡◌, refl, ◌+◌, ◌*◌, ◌≤◌, ◌==ₛ◌, arith, inl, inr, Bool-cases}
use assetlog.Prelude.Int.{ℤ, pos, negsuc, pos_part, neg_part, ◌-ℤ◌, ◌*ℤ◌, int_laws}
use assetlog.Cash.Rows.{of_amount}
use assetlog.Cash.Reconcile.{round_half_even, quantum, quantized}

round_won :
    (n : ℕ)
    → let m = round_half_even n 10_000_000_000_000_000 in
      (2 * (m * 10_000_000_000_000_000) ≤ 2 * n + 10_000_000_000_000_000)
      × (2 * n ≤ 2 * (m * 10_000_000_000_000_000) + 10_000_000_000_000_000)
unfolding round_half_even
round_won n = ground arith

round_coin :
    (n : ℕ)
    → let m = round_half_even n 100_000_000 in
      (2 * (m * 100_000_000) ≤ 2 * n + 100_000_000) × (2 * n ≤ 2 * (m * 100_000_000) + 100_000_000)
unfolding round_half_even
round_coin n = ground arith

of_amount_parts :
    (a : ℤ)
    → pos_part (of_amount a) + neg_part a * 100_000_000
      ≡ neg_part (of_amount a) + pos_part a * 100_000_000
unfolding ◌*ℤ◌
of_amount_parts a = ground arith

-- A value that is near to a magnitude, with the sign put back, is near to the number.
gap_bound :
    (delta : ℤ) (m : ℕ → ℕ) (unit q : ℕ)
    → m 0 ≡ 0
    → ((n : ℕ)
        → (2 * (m n * unit * 100_000_000) ≤ 2 * n + q)
          × (2 * n ≤ 2 * (m n * unit * 100_000_000) + q))
    → let gap =
        delta -ℤ of_amount (pos (m (pos_part delta) * unit) -ℤ pos (m (neg_part delta) * unit)) in
      2 * (pos_part gap + neg_part gap) ≤ q
gap_bound (pos n) m unit q z close =
    rw z (grind (int_laws, of_amount_parts (pos (m n * unit) -ℤ pos (0 * unit)), close n))
gap_bound (negsuc n) m unit q z close =
    rw z
      (grind (int_laws, of_amount_parts (pos (0 * unit) -ℤ pos (m (n + 1) * unit)), close (n + 1)))

-- What is left of `delta` is at most half of a quantum.
pub quantized_close :
    (currency : String) (delta : ℤ)
    → let gap = delta -ℤ of_amount (quantized currency delta) in
      2 * (pos_part gap + neg_part gap) ≤ quantum currency
unfolding quantized
quantized_close currency delta = elim (Bool-cases (currency ==ₛ "KRW")) [
  | inl won ↦ rw won (
      gap_bound delta (λ n. round_half_even n 10_000_000_000_000_000) 100_000_000
        10_000_000_000_000_000 refl (λ n. grind (arith, round_won n)))
  | inr coin ↦ rw coin (
      gap_bound delta (λ n. round_half_even n 100_000_000) 1 100_000_000 refl
        (λ n. grind (arith, round_coin n)))
]
