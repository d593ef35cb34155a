-- ===== src/Prelude/Sums.antt =====
-- Sums of integers over lists.
use mathlib.Core.Path.{◌≡◌, refl, ap}
use mathlib.Core.List.{List, [], ◌∷◌, ◌++◌, map}
use assetlog.Prelude.Int.{ℤ, pos, ◌+ℤ◌, int_laws}

module _ {ℓ} {A : Type ℓ} where
  -- `sum(f(x) for x in xs)`
  unfoldable pub sum_of : (A → ℤ) → List A → ℤ
  sum_of f [] = pos 0
  sum_of f (x ∷ xs) = f x +ℤ sum_of f xs

  pub sum_of-append :
      (f : A → ℤ) (xs ys : List A) → sum_of f (xs ++ ys) ≡ sum_of f xs +ℤ sum_of f ys
  unfolding sum_of
  sum_of-append f [] ys = omega int_laws
  sum_of-append f (x ∷ xs) ys = rw (sum_of-append f xs ys) (omega int_laws)

module _ {ℓ κ} {A : Type ℓ} {B : Type κ} where
  pub sum_of-map :
      (f : B → ℤ) (g : A → B) (xs : List A) → sum_of f (map g xs) ≡ sum_of (λ x. f (g x)) xs
  unfolding sum_of
  sum_of-map f g [] = refl
  sum_of-map f g (x ∷ xs) = ap (λ s. f (g x) +ℤ s) (sum_of-map f g xs)
