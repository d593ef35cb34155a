-- ===== src/Risk/Growth.antt =====
-- The compound return of a year (`_yearly_compound` of backend/app/services/heatmap.py) as a product.
use assetlog.Prelude.{
  ℕ, ◌*◌, ◌≡◌, refl, ap, Bool, true, false, none, some, List, [], ◌∷◌, if◌then◌else◌,
}
use assetlog.Prelude.Int.{ℤ, pos, ◌+ℤ◌, ◌-ℤ◌, ◌*ℤ◌}
use assetlog.Performance.Twr.{Ratio, one, one_plus, less_one, times}
use assetlog.Risk.Heatmap.{compounded, year_return}

-- `1 + r` of each return: the product of the numerators, from `n` on, and of the denominators.
unfoldable pub growth_from : ℤ → List Ratio → ℤ
growth_from n [] = n
growth_from n (r ∷ returns) = growth_from (n *ℤ (pos r.den +ℤ r.num)) returns

unfoldable pub base_from : ℕ → List Ratio → ℕ
base_from n [] = n
base_from n (r ∷ returns) = base_from (n * r.den) returns

-- What the returns come to: the product of `1 + r`, less 1, over the product of the denominators.
abbrev pub growth_less_one : List Ratio → Ratio
growth_less_one returns =
    let base = base_from 1 returns in
    record { num = growth_from (pos 1) returns -ℤ pos base; den = base }

compounded-growth :
    (compound : Ratio) (returns : List Ratio)
    → compounded compound returns
      ≡ record { num = growth_from compound.num returns; den = base_from compound.den returns }
unfolding compounded growth_from base_from
compounded-growth compound [] = refl
compounded-growth compound (r ∷ returns) = compounded-growth (times compound (one_plus r)) returns

pub year_return_lem :
    (gap : Bool) (returns : List Ratio)
    → year_return gap returns ≡ (if gap then none else some (growth_less_one returns))
year_return_lem true returns = refl
year_return_lem false returns = ap (λ c. some (less_one c)) (compounded-growth one returns)
