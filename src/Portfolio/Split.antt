-- ===== src/Portfolio/Split.antt =====
-- The split of a gain into its price and currency parts: the two functions at the top of
-- backend/app/services/portfolio.py. A quotient is a parameter.
use assetlog.Prelude.{
  ◌+◌, ◌*◌, ◌≡◌, ap, sym, ◌∙◌, Option, none, some, List, [], ◌∷◌, ◌==◌, if◌then◌else◌, arith,
}
use assetlog.Prelude.Int.{
  ℤ, pos, pos_part, neg_part, ◌+ℤ◌, ◌-ℤ◌, ◌*ℤ◌, int_laws, eq_of_parts, +ℤ_parts, -ℤ_parts,
}
use assetlog.Prelude.Keyed.{Keyed, at_key}
use assetlog.Portfolio.Holdings.{BuyLot}

unfoldable pub compute_price_fx_split : ℤ → ℤ → ℤ → ℤ → ℤ × ℤ
unfolding ◌*ℤ◌ ◌-ℤ◌
compute_price_fx_split pnl_local cost_basis_local fx_now fx_buy_avg =
    (pnl_local *ℤ fx_now, cost_basis_local *ℤ (fx_now -ℤ fx_buy_avg))

-- The loop of `_weighted_avg_fx_buy`, with the two sums; a lot whose time has no rate ends it.
unfoldable pub weigh_lots : List BuyLot → Keyed (Option ℤ) → ℤ → ℤ → Option (ℤ × ℤ)
unfolding at_key ◌+ℤ◌ ◌*ℤ◌
weigh_lots [] rates total_cost weighted_sum = some (total_cost, weighted_sum)
weigh_lots (lot ∷ lots) rates total_cost weighted_sum = elim (at_key lot.traded_at rates) [
  | none ↦ none
  | some none ↦ none
  | some (some rate) ↦
      weigh_lots lots rates (total_cost +ℤ lot.cost_local) (weighted_sum +ℤ lot.cost_local *ℤ rate)
]

abbrev quotient_of : (ℤ → ℤ → ℤ) → Option (ℤ × ℤ) → Option ℤ
quotient_of divide none = none
quotient_of divide (some (total_cost, weighted_sum)) =
    if pos_part total_cost + neg_part total_cost == 0
    then none
    else some (divide weighted_sum total_cost)

abbrev unless_empty : List BuyLot → Option ℤ → Option ℤ
unless_empty [] rate = none
unless_empty (lot ∷ lots) rate = rate

unfoldable pub weighted_avg_fx_buy : (ℤ → ℤ → ℤ) → List BuyLot → Keyed (Option ℤ) → Option ℤ
unfolding weigh_lots
weighted_avg_fx_buy divide buy_lots historical_rates =
    unless_empty buy_lots
      (quotient_of divide (weigh_lots buy_lots historical_rates (pos 0) (pos 0)))

*ℤ_parts :
    (a b : ℤ)
    → pos_part (a *ℤ b) + (pos_part a * neg_part b + neg_part a * pos_part b)
      ≡ neg_part (a *ℤ b) + (pos_part a * pos_part b + neg_part a * neg_part b)
unfolding ◌*ℤ◌
*ℤ_parts a b = ground arith

*ℤ_minus : (c a b : ℤ) → c *ℤ (a -ℤ b) ≡ c *ℤ a -ℤ c *ℤ b
*ℤ_minus c a b =
    let d = -ℤ_parts a b in
    eq_of_parts (c *ℤ (a -ℤ b)) (c *ℤ a -ℤ c *ℤ b) (
      omega (
        arith,
        *ℤ_parts c (a -ℤ b),
        *ℤ_parts c a,
        *ℤ_parts c b,
        -ℤ_parts (c *ℤ a) (c *ℤ b),
        ap (λ t. pos_part c * t) d,
        ap (λ t. neg_part c * t) d,
      ))

*ℤ_plus : (c a b : ℤ) → (a +ℤ b) *ℤ c ≡ a *ℤ c +ℤ b *ℤ c
*ℤ_plus c a b =
    let d = +ℤ_parts a b in
    eq_of_parts ((a +ℤ b) *ℤ c) (a *ℤ c +ℤ b *ℤ c) (
      omega (
        arith,
        *ℤ_parts (a +ℤ b) c,
        *ℤ_parts a c,
        *ℤ_parts b c,
        +ℤ_parts (a *ℤ c) (b *ℤ c),
        ap (λ t. t * pos_part c) d,
        ap (λ t. t * neg_part c) d,
      ))

less_moved : (p c d : ℤ) → p +ℤ (c -ℤ d) ≡ p +ℤ c -ℤ d
less_moved p c d = omega int_laws

-- The two parts add up to the gain in the display currency: the value at today's rate, less the cost
-- at the rate of the purchases.
pub compute_price_fx_split_lem :
    (value_local cost_basis_local fx_now fx_buy_avg : ℤ)
    → let (price_pnl, fx_pnl) =
        compute_price_fx_split
          (value_local -ℤ cost_basis_local)
          cost_basis_local
          fx_now
          fx_buy_avg in
      price_pnl +ℤ fx_pnl ≡ value_local *ℤ fx_now -ℤ cost_basis_local *ℤ fx_buy_avg
unfolding compute_price_fx_split
compute_price_fx_split_lem value cost fx_now fx_buy_avg =
    let own = *ℤ_plus fx_now (value -ℤ cost) cost in
    let back : value -ℤ cost +ℤ cost ≡ value = omega int_laws in
    let sum = sym own ∙ ap (λ v. v *ℤ fx_now) back in
    rw (*ℤ_minus cost fx_now fx_buy_avg) (
      less_moved ((value -ℤ cost) *ℤ fx_now) (cost *ℤ fx_now) (cost *ℤ fx_buy_avg)
      ∙ ap (λ n. n -ℤ cost *ℤ fx_buy_avg) sum)
