-- ===== src/Prelude/Sorting.antt =====
-- Python's `sorted` and SQL's `ORDER BY`: a stable sort by a Boolean order.
use Prim.Native.String.{String, compare}
use Prim.Native.Nat.{Ordering, ℕ, suc, ◌≤◌}
use mathlib.Core.Logic.{inl, inr}
use native.Mathlib.Omega.{arith}
use mathlib.Core.Path.{◌≡◌, refl, ap, ◌∙◌}
use mathlib.Core.Bool.{Bool, true, false}
use mathlib.Core.List.{List, [], ◌∷◌}
use assetlog.Prelude.Tests.{leb, if◌then◌else◌, Bool-cases}
use assetlog.Prelude.Lists.{length, take, All, All-mono}
use assetlog.Prelude.Int.{ℤ, ◌+ℤ◌, int_laws}
use assetlog.Prelude.Sums.{sum_of}

-- `a <= b` of texts, by code points.
abbrev pub text_leb : String → String → Bool
text_leb a b = elim (compare a b) [ Ordering.gt ↦ false | _ ↦ true ]

module _ {ℓ} {A : Type ℓ} where
  unfoldable pub insert_sorted : (A → A → Bool) → A → List A → List A
  insert_sorted le x [] = x ∷ []
  insert_sorted le x (y ∷ ys) =
      let rest = insert_sorted le x ys in if le x y then x ∷ y ∷ ys else y ∷ rest

  -- An item is put before the later items that are equal to it, so the sort is stable.
  unfoldable pub sort : (A → A → Bool) → List A → List A
  unfolding insert_sorted
  sort le [] = []
  sort le (x ∷ xs) = insert_sorted le x (sort le xs)

  sum_of-insert_sorted :
      (f : A → ℤ) (le : A → A → Bool) (x : A) (xs : List A)
      → sum_of f (insert_sorted le x xs) ≡ f x +ℤ sum_of f xs
  unfolding sum_of insert_sorted
  sum_of-insert_sorted f le x [] = refl
  sum_of-insert_sorted f le x (y ∷ ys) = grind (int_laws, sum_of-insert_sorted f le x ys)

  pub sum_of-sort :
      (f : A → ℤ) (le : A → A → Bool) (xs : List A) → sum_of f (sort le xs) ≡ sum_of f xs
  unfolding sum_of sort
  sum_of-sort f le [] = refl
  sum_of-sort f le (x ∷ xs) =
      sum_of-insert_sorted f le x (sort le xs) ∙ ap (λ s. f x +ℤ s) (sum_of-sort f le xs)

  length-insert_sorted :
      (le : A → A → Bool) (x : A) (xs : List A) → length (insert_sorted le x xs) ≡ suc (length xs)
  unfolding insert_sorted
  length-insert_sorted le x [] = refl
  length-insert_sorted le x (y ∷ ys) = ground (arith, length-insert_sorted le x ys)

  pub length-sort : (le : A → A → Bool) (xs : List A) → length (sort le xs) ≡ length xs
  unfolding sort
  length-sort le [] = refl
  length-sort le (x ∷ xs) = length-insert_sorted le x (sort le xs) ∙ ap suc (length-sort le xs)

  -- A list that sorts to at most one item is that list.
  pub sort_short : (le : A → A → Bool) (xs : List A) → length xs ≤ 1 → sort le xs ≡ xs
  unfolding sort insert_sorted
  sort_short le [] short = refl
  sort_short le (x ∷ []) short = refl
  sort_short le (x ∷ y ∷ ys) short = absurd (omega arith)

  pub All-insert_sorted :
      (P : A → Type 0) (le : A → A → Bool) (x : A) (xs : List A)
      → P x
      → All P xs
      → All P (insert_sorted le x xs)
  unfolding insert_sorted
  All-insert_sorted P le x [] here h = (here, tt)
  All-insert_sorted P le x (y ∷ ys) here h = elim (Bool-cases (le x y)) [
    | inl first ↦ rw first (here, h)
    | inr later ↦ rw later (h.0, All-insert_sorted P le x ys here h.1)
  ]

  pub All-sort : (P : A → Type 0) (le : A → A → Bool) (xs : List A) → All P xs → All P (sort le xs)
  unfolding sort
  All-sort P le [] h = tt
  All-sort P le (x ∷ xs) h = All-insert_sorted P le x (sort le xs) h.0 (All-sort P le xs h.1)

-- Lists that a number does not decrease along.
module _ {A : Type 0} (key : A → ℕ) where
  abbrev pub Ascending : List A → Type 0
  Ascending [] = Unit
  Ascending (x ∷ xs) = All (λ y. key x ≤ key y) xs × Ascending xs

  -- An order that respects the number.
  abbrev pub Respects : (A → A → Bool) → Type 0
  Respects le = (a b : A) → if le a b then key a ≤ key b else key b ≤ key a

  insert_sorted-Ascending :
      (le : A → A → Bool) (x : A) (ys : List A)
      → Respects le
      → Ascending ys
      → Ascending (insert_sorted le x ys)
  unfolding insert_sorted
  insert_sorted-Ascending le x [] r h = (tt, tt)
  insert_sorted-Ascending le x (y ∷ ys) r h = elim (Bool-cases (le x y)) [
    | inl first ↦
        let less : key x ≤ key y = rw first at (r x y) in
        rw first ((less, All-mono _ _ ys (λ z yz. omega (arith, less, yz)) h.0), h)
    | inr later ↦
        let less : key y ≤ key x = rw later at (r x y) in
        rw later (All-insert_sorted _ le x ys less h.0, insert_sorted-Ascending le x ys r h.1)
  ]

  pub sort-Ascending : (le : A → A → Bool) (xs : List A) → Respects le → Ascending (sort le xs)
  unfolding sort
  sort-Ascending le [] r = tt
  sort-Ascending le (x ∷ xs) r =
      insert_sorted-Ascending le x (sort le xs) r (sort-Ascending le xs r)

-- Sorted by a number, the first item has the least.
module _ {A : Type 0} (key : A → ℕ) where
  abbrev pub by_key : A → A → Bool
  by_key a b = leb (key a) (key b)

  -- No more than `n` comes first.
  abbrev pub Least : ℕ → List A → Type 0
  Least n xs = All (λ h. key h ≤ n) (take 1 xs)

  by_key-Respects : Respects key by_key
  by_key-Respects a b = elim (Bool-cases (by_key a b)) [
    | inl e ↦ rw e (ground arith)
    | inr e ↦ rw e (ground arith)
  ]

  pub sort_by-Ascending : (xs : List A) → Ascending key (sort by_key xs)
  sort_by-Ascending xs = sort-Ascending key by_key xs by_key-Respects

  insert_new-Least : (n : ℕ) (x : A) (xs : List A) → key x ≤ n → Least n (insert_sorted by_key x xs)
  unfolding insert_sorted
  insert_new-Least n x [] le = (le, tt)
  insert_new-Least n x (y ∷ ys) le = elim (Bool-cases (by_key x y)) [
    | inl first ↦ rw first (le, tt)
    | inr later ↦ let less : key y ≤ n = ground arith in rw later (less, tt)
  ]

  insert_old-Least :
      (n : ℕ) (x : A) (xs : List A)
      → 1 ≤ length xs
      → Least n xs
      → Least n (insert_sorted by_key x xs)
  unfolding insert_sorted
  insert_old-Least n x [] some h = absurd (omega arith)
  insert_old-Least n x (y ∷ ys) some h = elim (Bool-cases (by_key x y)) [
    | inl first ↦
        let below : key y ≤ n = h.0 in let less : key x ≤ n = ground arith in rw first (less, tt)
    | inr later ↦ rw later (h.0, tt)
  ]

  pub sort-Least : (xs : List A) → All (λ y. Least (key y) (sort by_key xs)) xs
  unfolding sort
  sort-Least [] = tt
  sort-Least (x ∷ []) = (insert_new-Least (key x) x [] (omega arith), tt)
  sort-Least (x ∷ z ∷ zs) = (
    insert_new-Least (key x) x (sort by_key (z ∷ zs)) (omega arith),
    All-mono (λ y. Least (key y) (sort by_key (z ∷ zs))) _ (z ∷ zs)
        (λ y h.
          insert_old-Least (key y) x (sort by_key (z ∷ zs))
            (omega (arith, length-sort by_key (z ∷ zs))) h)
        (sort-Least (z ∷ zs)),
  )
