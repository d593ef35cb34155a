-- ===== src/Prelude/Table.antt =====
-- Tables with a primary key: a row is changed or deleted by its id.
use Prim.Native.Nat.{ℕ}
use mathlib.Core.Path.{◌≡◌, refl, ap}
use mathlib.Core.Logic.{◌≢◌, inl, inr}
use mathlib.Core.Bool.{Bool, true, not}
use mathlib.Core.Option.{some}
use mathlib.Core.List.{List, [], ◌∷◌, map}
use native.Mathlib.Omega.{arith}
use assetlog.Prelude.Tests.{◌==◌, if◌then◌else◌, Bool-cases}
use assetlog.Prelude.Lists.{All, All-filter, filter, find}
use assetlog.Prelude.Int.{ℤ, ◌+ℤ◌, int_laws}
use assetlog.Prelude.Sums.{sum_of}

module _ {A : Type 0} where
  pub find-All :
      (P : A → Type 0) (p : A → Bool) (rows : List A) (row : A)
      → All P rows
      → find p rows ≡ some row
      → P row
  unfolding find
  find-All P p [] row h e = cc
  find-All P p (x ∷ rows) row h e = elim (Bool-cases (p x)) [
    | inl here ↦ let same : x ≡ row = ground arith in rw (← same) h.0
    | inr there ↦ find-All P p rows row h.1 (ground arith)
  ]

  pub find-holds : (p : A → Bool) (rows : List A) (row : A) → find p rows ≡ some row → p row ≡ true
  unfolding find
  find-holds p [] row e = cc
  find-holds p (x ∷ rows) row e = elim (Bool-cases (p x)) [
    | inl here ↦ let same : x ≡ row = ground arith in rw (← same) here
    | inr there ↦ find-holds p rows row (ground arith)
  ]

module _ {A : Type 0} (id : A → ℕ) where
  -- No two rows have one id.
  abbrev pub DistinctIds : List A → Type 0
  DistinctIds [] = Unit
  DistinctIds (x ∷ rows) = All (λ y. id y ≢ id x) rows × DistinctIds rows

  -- UPDATE and DELETE by primary key.
  abbrev pub set_row : ℕ → (A → A) → List A → List A
  set_row k u rows = map (λ r. if id r == k then u r else r) rows

  abbrev pub drop_row : ℕ → List A → List A
  drop_row k rows = filter (λ r. not (id r == k)) rows

  set_row_absent :
      (k j : ℕ) (u : A → A) (rows : List A)
      → k ≡ j
      → All (λ y. id y ≢ k) rows
      → set_row j u rows ≡ rows
  set_row_absent k j u [] e h = refl
  set_row_absent k j u (x ∷ rows) e h = ground (arith, set_row_absent k j u rows e h.1)

  drop_row_absent :
      (k j : ℕ) (rows : List A) → k ≡ j → All (λ y. id y ≢ k) rows → drop_row j rows ≡ rows
  unfolding filter
  drop_row_absent k j [] e h = refl
  drop_row_absent k j (x ∷ rows) e h = ground (arith, drop_row_absent k j rows e h.1)

  module _ (g : A → ℤ) (p : A → Bool) where
    -- Changing the row that a query finds replaces its term of a sum.
    pub sum_of-set_row :
        (u : A → A) (rows : List A) (row : A)
        → DistinctIds rows
        → find p rows ≡ some row
        → sum_of g (set_row (id row) u rows) +ℤ g row ≡ sum_of g rows +ℤ g (u row)
    unfolding sum_of find
    sum_of-set_row u [] row d e = cc
    sum_of-set_row u (x ∷ rows) row d e = elim (Bool-cases (p x)) [
      | inl here ↦
          let same : x ≡ row = ground arith in
          grind (int_laws, set_row_absent (id x) (id row) u rows (ap id same) d.0, same)
      | inr there ↦
          let e' : find p rows ≡ some row = ground arith in
          let other : id row ≢ id x = find-All (λ y. id y ≢ id x) p rows row d.0 e' in
          grind (int_laws, sum_of-set_row u rows row d.1 e', other)
    ]

    pub sum_of-drop_row :
        (rows : List A) (row : A)
        → DistinctIds rows
        → find p rows ≡ some row
        → sum_of g (drop_row (id row) rows) +ℤ g row ≡ sum_of g rows
    unfolding sum_of find filter
    sum_of-drop_row [] row d e = cc
    sum_of-drop_row (x ∷ rows) row d e = elim (Bool-cases (p x)) [
      | inl here ↦
          let same : x ≡ row = ground arith in
          grind (int_laws, drop_row_absent (id x) (id row) rows (ap id same) d.0, same)
      | inr there ↦
          let e' : find p rows ≡ some row = ground arith in
          let other : id row ≢ id x = find-All (λ y. id y ≢ id x) p rows row d.0 e' in
          grind (int_laws, sum_of-drop_row rows row d.1 e', other)
    ]

module _ {A : Type 0} (id : A → ℕ) where
  filter-absent :
      (k : ℕ) (rows : List A) → All (λ y. id y ≢ k) rows → filter (λ r. id r == k) rows ≡ []
  unfolding filter
  filter-absent k [] h = refl
  filter-absent k (x ∷ rows) h = ground (arith, filter-absent k rows h.1)

  past :
      (x : A) (rows rest : List A)
      → All (λ y. id y ≢ id x) rest
      → All (λ y. filter (λ r. id r == id y) rows ≡ y ∷ []) rest
      → All (λ y. filter (λ r. id r == id y) (x ∷ rows) ≡ y ∷ []) rest
  unfolding filter
  past x rows [] a h = tt
  past x rows (y ∷ rest) a h = (ground (arith, a.0, h.0), past x rows rest a.1 h.1)

  -- By its id a row is found, and no other.
  pub filter-own_id :
      (rows : List A)
      → DistinctIds id rows
      → All (λ y. filter (λ r. id r == id y) rows ≡ y ∷ []) rows
  unfolding filter
  filter-own_id [] d = tt
  filter-own_id (x ∷ rows) d =
      (ground (arith, filter-absent (id x) rows d.0), past x rows rows d.0 (filter-own_id rows d.1))

  pub DistinctIds-filter :
      (p : A → Bool) (rows : List A) → DistinctIds id rows → DistinctIds id (filter p rows)
  unfolding filter
  DistinctIds-filter p [] d = tt
  DistinctIds-filter p (x ∷ rows) d = elim (Bool-cases (p x)) [
    | inl e ↦ rw e (All-filter _ p rows d.0, DistinctIds-filter p rows d.1)
    | inr e ↦ rw e (DistinctIds-filter p rows d.1)
  ]
