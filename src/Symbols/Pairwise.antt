-- ===== src/Symbols/Pairwise.antt =====
-- Lists whose items are pairwise unlike: filtered, sorted, cut and extended.
use assetlog.Prelude.{
  ℕ, zero, suc, ◌≤◌, ◌≡◌, ◌∙◌, Bool, false, none, some, List, [], ◌∷◌, ◌++◌, All, All-filter,
  All-append, filter, find, any, take, drop, length, arith, inl, inr, Bool-cases,
}
use assetlog.Prelude.Sorting.{sort, insert_sorted, All-insert_sorted, All-sort}

module _ {A : Type 0} where
  pub All-take : (P : A → Type 0) (n : ℕ) (xs : List A) → All P xs → All P (take n xs)
  All-take P zero xs h = tt
  All-take P (suc n) [] h = tt
  All-take P (suc n) (x ∷ xs) h = (h.0, All-take P n xs h.1)

  some-none : (a : A) → some a ≡ none → ⊥
  some-none a e = cc

  pub find-none : (p : A → Bool) (xs : List A) → find p xs ≡ none → All (λ x. p x ≡ false) xs
  unfolding find
  find-none p [] h = tt
  find-none p (x ∷ xs) h = elim (Bool-cases (p x)) [
    | inl e ↦ absurd (some-none x (rw e at h))
    | inr e ↦ (e, find-none p xs (rw e at h))
  ]

  pub any-none : (p : A → Bool) (xs : List A) → any p xs ≡ false → All (λ x. p x ≡ false) xs
  any-none p [] h = tt
  any-none p (x ∷ xs) h = elim (Bool-cases (p x)) [
    | inl e ↦ cc (rw e at h)
    | inr e ↦ (e, any-none p xs (rw e at h))
  ]

  pub length-take : (n : ℕ) (xs : List A) → length (take n xs) ≤ n
  length-take zero xs = omega arith
  length-take (suc n) [] = omega arith
  length-take (suc n) (x ∷ xs) = omega (arith, length-take n xs)

  module _ (like : A → A → Bool) where
    abbrev pub Unlike : List A → Type 0
    Unlike [] = Unit
    Unlike (x ∷ xs) = All (λ y. like x y ≡ false) xs × Unlike xs

    pub Unlike-filter : (p : A → Bool) (xs : List A) → Unlike xs → Unlike (filter p xs)
    unfolding filter
    Unlike-filter p [] h = tt
    Unlike-filter p (x ∷ xs) h = elim (Bool-cases (p x)) [
      | inl e ↦ rw e (All-filter _ p xs h.0, Unlike-filter p xs h.1)
      | inr e ↦ rw e (Unlike-filter p xs h.1)
    ]

    pub Unlike-take : (n : ℕ) (xs : List A) → Unlike xs → Unlike (take n xs)
    Unlike-take zero xs h = tt
    Unlike-take (suc n) [] h = tt
    Unlike-take (suc n) (x ∷ xs) h = (All-take _ n xs h.0, Unlike-take n xs h.1)

    pub Unlike-drop : (n : ℕ) (xs : List A) → Unlike xs → Unlike (drop n xs)
    Unlike-drop zero xs h = h
    Unlike-drop (suc n) [] h = tt
    Unlike-drop (suc n) (x ∷ xs) h = Unlike-drop n xs h.1

    pub Unlike-append :
        (xs : List A) (y : A) → All (λ x. like x y ≡ false) xs → Unlike xs → Unlike (xs ++ y ∷ [])
    Unlike-append [] y new h = (tt, tt)
    Unlike-append (x ∷ xs) y new h =
        (All-append _ xs (y ∷ []) h.0 (new.0, tt), Unlike-append xs y new.1 h.1)

    module _ (comm : (a b : A) → like a b ≡ like b a) where
      insert_sorted-Unlike :
          (le : A → A → Bool) (x : A) (xs : List A)
          → All (λ y. like x y ≡ false) xs
          → Unlike xs
          → Unlike (insert_sorted le x xs)
      unfolding insert_sorted
      insert_sorted-Unlike le x [] new h = (tt, tt)
      insert_sorted-Unlike le x (y ∷ xs) new h = elim (Bool-cases (le x y)) [
        | inl first ↦ rw first (new, h)
        | inr later ↦ rw later (
          All-insert_sorted _ le x xs (comm y x ∙ new.0) h.0,
          insert_sorted-Unlike le x xs new.1 h.1,
        )
      ]

      pub sort-Unlike : (le : A → A → Bool) (xs : List A) → Unlike xs → Unlike (sort le xs)
      unfolding sort
      sort-Unlike le [] h = tt
      sort-Unlike le (x ∷ xs) h =
          insert_sorted-Unlike le x (sort le xs) (All-sort _ le xs h.0) (sort-Unlike le xs h.1)
