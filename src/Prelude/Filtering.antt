-- ===== src/Prelude/Filtering.antt =====
-- A stable sort by an order, and a filter: the one after the other, either way.
use mathlib.Core.Logic.{inl, inr}
use native.Mathlib.Omega.{arith}
use mathlib.Core.Path.{◌≡◌, refl, ap, ◌∙◌}
use mathlib.Core.Bool.{Bool, true, false}
use mathlib.Core.List.{List, [], ◌∷◌}
use assetlog.Prelude.Tests.{Bool-cases}
use assetlog.Prelude.Lists.{All, All-mono, All-filter, filter}
use assetlog.Prelude.Sorting.{sort, insert_sorted, All-insert_sorted}

-- A Boolean order that compares any two items.
pub record IsOrder {A : Type 0} (le : A → A → Bool) : Type 0 where
  pub trans : (a b c : A) → le a b ≡ true → le b c ≡ true → le a c ≡ true
  pub total : (a b : A) → le a b ≡ false → le b a ≡ true

module _ {A : Type 0} (le : A → A → Bool) (order : IsOrder le) where
  abbrev Sorted : List A → Type 0
  Sorted [] = Unit
  Sorted (x ∷ xs) = All (λ y. le x y ≡ true) xs × Sorted xs

  insert_sorted-Sorted : (x : A) (ys : List A) → Sorted ys → Sorted (insert_sorted le x ys)
  unfolding insert_sorted
  insert_sorted-Sorted x [] h = (tt, tt)
  insert_sorted-Sorted x (y ∷ ys) h = elim (Bool-cases (le x y)) [
    | inl first ↦ rw first ((first, All-mono _ _ ys (λ z yz. order.trans x y z first yz) h.0), h)
    | inr later ↦
        rw later
          (All-insert_sorted _ le x ys (order.total x y later) h.0, insert_sorted-Sorted x ys h.1)
  ]

  sort-Sorted : (xs : List A) → Sorted (sort le xs)
  unfolding sort
  sort-Sorted [] = tt
  sort-Sorted (x ∷ xs) = insert_sorted-Sorted x (sort le xs) (sort-Sorted xs)

  insert_least :
      (x : A) (ys : List A) → All (λ y. le x y ≡ true) ys → insert_sorted le x ys ≡ x ∷ ys
  unfolding insert_sorted
  insert_least x [] h = refl
  insert_least x (y ∷ ys) h = rw h.0 refl

  module _ (p : A → Bool) where
    filter-insert_left :
        (x : A) (ys : List A) → p x ≡ false → filter p (insert_sorted le x ys) ≡ filter p ys
    unfolding insert_sorted filter
    filter-insert_left x [] out = rw out refl
    filter-insert_left x (y ∷ ys) out = ground (arith, out, filter-insert_left x ys out)

    filter-insert_kept :
        (x : A) (ys : List A)
        → p x ≡ true
        → Sorted ys
        → filter p (insert_sorted le x ys) ≡ insert_sorted le x (filter p ys)
    unfolding insert_sorted filter
    filter-insert_kept x [] kept h = rw kept refl
    filter-insert_kept x (y ∷ ys) kept h = elim (Bool-cases (le x y)) [
      | inl first ↦
          let least = insert_least x (filter p (y ∷ ys)) (
            All-filter _ p (y ∷ ys)
              (first, All-mono _ _ ys (λ z yz. order.trans x y z first yz) h.0)) in
          ground (arith, first, kept, least)
      | inr later ↦ ground (arith, later, kept, filter-insert_kept x ys kept h.1)
    ]

    pub filter-sort : (xs : List A) → filter p (sort le xs) ≡ sort le (filter p xs)
    unfolding sort filter
    filter-sort [] = refl
    filter-sort (x ∷ xs) = elim (Bool-cases (p x)) [
      | inl kept ↦
          filter-insert_kept x (sort le xs) kept (sort-Sorted xs)
          ∙ rw kept (ap (insert_sorted le x) (filter-sort xs))
      | inr out ↦ filter-insert_left x (sort le xs) out ∙ rw out (filter-sort xs)
    ]
