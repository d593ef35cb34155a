-- ===== src/Upbit/Pages.antt =====
-- The pages of deposits and withdrawals.
use assetlog.Prelude.{
  ℕ, zero, suc, ◌+◌, ◌-◌, ◌*◌, ◌≤◌, ◌<◌, ◌≡◌, refl, ap, ◌∙◌, sym, Option, some, List, [], ◌∷◌, ◌++◌,
  map, length, take, drop, arith, inl, inr, Bool-cases, ltb, true, if◌then◌else◌,
}
use assetlog.Upbit.Cash.{Endpoint, objects, collect_pages, paginate_cash_rows}

ltb_less : (n m : ℕ) → ltb n m ≡ true → n < m
ltb_less n m h = ground (arith, h)

module _ {A : Type 0} where
  take_none : (m : ℕ) → take {A = A} m [] ≡ []
  take_none zero = refl
  take_none (suc m) = refl

  drop_none : (m : ℕ) → drop {A = A} m [] ≡ []
  drop_none zero = refl
  drop_none (suc m) = refl

  take-add : (n m : ℕ) (xs : List A) → take n xs ++ take m (drop n xs) ≡ take (n + m) xs
  take-add zero m xs = ap (λ k. take k xs) (omega arith)
  take-add (suc n) m [] = take_none m ∙ sym (take_none (suc n + m))
  take-add (suc n) m (x ∷ xs) =
      ap (λ ys. x ∷ ys) (take-add n m xs)
      ∙ ap (λ k. take k (x ∷ xs)) {x = suc (n + m)} (omega arith)

  drop-drop : (n m : ℕ) (xs : List A) → drop n (drop m xs) ≡ drop (m + n) xs
  drop-drop n zero xs = ap (λ k. drop k xs) (omega arith)
  drop-drop n (suc m) [] = drop_none n ∙ sym (drop_none (suc m + n))
  drop-drop n (suc m) (x ∷ xs) =
      drop-drop n m xs ∙ ap (λ k. drop k (x ∷ xs)) {x = suc (m + n)} (omega arith)

  short_take : (n m : ℕ) (xs : List A) → length (take n xs) < n → n ≤ m → take n xs ≡ take m xs
  short_take zero m xs h le = absurd (omega (arith, h))
  short_take (suc n) zero xs h le = absurd (omega (arith, le))
  short_take (suc n) (suc m) [] h le = refl
  short_take (suc n) (suc m) (x ∷ xs) h le =
      ap (λ ys. x ∷ ys) (short_take n m xs (omega (arith, h)) (omega (arith, le)))

  objects-some : (xs : List A) → objects (map some xs) ≡ xs
  objects-some [] = refl
  objects-some (x ∷ xs) = ap (λ ys. x ∷ ys) (objects-some xs)

  length-some : (xs : List A) → length (map some xs) ≡ length xs
  length-some [] = refl
  length-some (x ∷ xs) = ap suc (length-some xs)

  no_pages : (endpoint : Endpoint A) (page : ℕ) → collect_pages endpoint 0 page ≡ []
  unfolding collect_pages
  no_pages endpoint page = refl

  collect_step :
      (endpoint : Endpoint A) (pages page : ℕ) (rows : List (Option A))
      → endpoint page ≡ some rows
      → collect_pages endpoint (suc pages) page ≡ (
          if ltb (length rows) 100
          then objects rows
          else objects rows ++ collect_pages endpoint pages (suc page))
  unfolding collect_pages
  collect_step endpoint pages page rows e = rw (e, collect_pages) refl

  -- The rows in pages of 100, counted from 1.
  abbrev pub in_pages : List A → Endpoint A
  in_pages rows page = some (map some (take 100 (drop ((page - 1) * 100) rows)))

  collect_pages_lem :
      (rows : List A) (pages k : ℕ)
      → collect_pages (in_pages rows) pages (suc k) ≡ take (pages * 100) (drop (k * 100) rows)
  collect_pages_lem rows zero k =
      let none_left : 0 ≡ 0 * 100 = omega arith in
      no_pages (in_pages rows) (suc k) ∙ ap (λ n. take n (drop (k * 100) rows)) none_left
  collect_pages_lem rows (suc pages) k =
      let left = drop (k * 100) rows in
      let page = take 100 left in
      let next : drop (suc k * 100) rows ≡ drop 100 left =
        ap (λ n. drop n rows) (omega arith) ∙ sym (drop-drop 100 (k * 100) rows) in
      let same = objects-some page in
      let asked : in_pages rows (suc k) ≡ some (map some page) =
        let this : suc k - 1 ≡ k = omega arith in
        ap (λ n. some (map some (take 100 (drop (n * 100) rows)))) this in
      collect_step (in_pages rows) pages (suc k) (map some page) asked
      ∙ elim (Bool-cases (ltb (length (map some page)) 100)) [
        | inl short ↦
            rw (short, same)
              (short_take 100 (suc pages * 100) left
                (ltb_less (length page) 100 (rw (length-some page) at short)) (omega arith))
        | inr full ↦
            rw (full, same, collect_pages_lem rows pages (suc k), next)
              (take-add 100 (pages * 100) left ∙ ap (λ n. take n left) (omega arith))
      ]

-- Of rows that the API serves in pages of 100, all are collected, up to 20,000 of them.
pub paginate_cash_rows_lem :
    {A : Type 0} (rows : List A) → paginate_cash_rows (in_pages rows) ≡ take 20_000 rows
unfolding paginate_cash_rows
paginate_cash_rows_lem rows = collect_pages_lem rows 200 0
