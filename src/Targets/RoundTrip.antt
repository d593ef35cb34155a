-- ===== src/Targets/RoundTrip.antt =====
-- A request's entries and the table that it leaves.
use assetlog.Prelude.{
  ℕ, ◌+◌, ◌≤◌, ◌≡◌, refl, ◌∙◌, String, true, false, none, List, [], ◌∷◌, any, find, length, arith,
  eq_iff, inl, inr, ◌⊎◌, Bool-cases, Option-cases, ◌==ₛ◌, text_same,
}
use assetlog.Prelude.Sorting.{sort, insert_sorted, length-sort}
use assetlog.Targets.Entries.{
  TargetAllocation, of_type, total_pct, ValueError, validate, by_type, list_targets, refused,
  entries, replace_all, replace,
}

-- No bucket comes twice.
abbrev pub Once : List TargetAllocation → Type 0
Once [] = Unit
Once (e ∷ es) = (any (of_type e.asset_type) es ≡ false) × Once es

seen_kept :
    (seen : List String) (t : String) (total : ℕ) (es : List TargetAllocation)
    → validate seen total es ≡ none
    → any (λ s. s ==ₛ t) seen ≡ true
    → any (of_type t) es ≡ false
unfolding validate
seen_kept seen t total [] e h = refl
seen_kept seen t total (x ∷ es) e h =
    let rest : validate (x.asset_type ∷ seen) (total + x.target_pct) es ≡ none =
      ground (arith, e) in
    elim (Bool-cases (x.asset_type ==ₛ t)) [
      | inl same ↦
          let here : any (λ s. s ==ₛ x.asset_type) seen ≡ true =
            rw ((eq_iff x.asset_type t).0 same) h in
          absurd (ground (arith, e, here))
      | inr other ↦
          rw other (seen_kept (x.asset_type ∷ seen) t (total + x.target_pct) es rest (rw other h))
    ]

validate-Once :
    (seen : List String) (total : ℕ) (es : List TargetAllocation)
    → validate seen total es ≡ none
    → Once es × (total + total_pct es ≤ 10_000)
unfolding validate
validate-Once seen total [] e = (tt, ground (arith, e))
validate-Once seen total (x ∷ es) e =
    let rest : validate (x.asset_type ∷ seen) (total + x.target_pct) es ≡ none =
      ground (arith, e) in
    let (once, sum) = validate-Once (x.asset_type ∷ seen) (total + x.target_pct) es rest in
    let known : any (λ s. s ==ₛ x.asset_type) (x.asset_type ∷ seen) ≡ true =
      rw (text_same x.asset_type) refl in
    (
      (seen_kept (x.asset_type ∷ seen) x.asset_type (total + x.target_pct) es rest known, once),
      omega (arith, sum),
    )

any-insert_sorted :
    (t : String) (x : TargetAllocation) (ys : List TargetAllocation)
    → any (of_type t) (insert_sorted by_type x ys) ≡ any (of_type t) (x ∷ ys)
unfolding insert_sorted
any-insert_sorted t x [] = refl
any-insert_sorted t x (y ∷ ys) = ground (arith, any-insert_sorted t x ys)

any-sort :
    (t : String) (es : List TargetAllocation)
    → any (of_type t) (sort by_type es) ≡ any (of_type t) es
unfolding sort
any-sort t [] = refl
any-sort t (x ∷ es) = any-insert_sorted t x (sort by_type es) ∙ ground (arith, any-sort t es)

find-insert_sorted :
    (t : String) (x : TargetAllocation) (ys : List TargetAllocation)
    → any (of_type x.asset_type) ys ≡ false
    → find (of_type t) (insert_sorted by_type x ys) ≡ find (of_type t) (x ∷ ys)
unfolding insert_sorted find
find-insert_sorted t x [] new = refl
find-insert_sorted t x (y ∷ ys) new = ground (
  arith,
  new,
  eq_iff x.asset_type t,
  eq_iff y.asset_type t,
  eq_iff y.asset_type x.asset_type,
  find-insert_sorted t x ys,
)

find-sort :
    (t : String) (es : List TargetAllocation)
    → Once es
    → find (of_type t) (sort by_type es) ≡ find (of_type t) es
unfolding sort find
find-sort t [] once = refl
find-sort t (x ∷ es) once =
    find-insert_sorted t x (sort by_type es) (any-sort x.asset_type es ∙ once.0)
    ∙ ground (arith, find-sort t es once.1)

-- A request is refused and leaves the table as it was, or the table then has its entries: listing
-- the targets gives as many as the request had, each bucket with the weight of the request; no
-- bucket is in it twice, and the weights are 1 together at most.
pub list_targets-replace :
    (payload rows : List TargetAllocation)
    → let (response, after) = replace payload rows in
      ((e : ValueError) × (response ≡ refused e) × (after ≡ rows))
      ⊎ ((response ≡ entries (list_targets after))
          × (length (list_targets after) ≡ length payload)
          × ((t : String) → find (of_type t) (list_targets after) ≡ find (of_type t) payload)
          × Once after
          × (total_pct after ≤ 10_000))
unfolding replace replace_all list_targets
list_targets-replace payload rows = elim (Option-cases (validate [] 0 payload)) [
  | inl valid ↦
      let (once, sum) = validate-Once [] 0 payload valid in
      rw valid (
        inr (
          refl,
          length-sort by_type payload,
          λ t. find-sort t payload once,
          once,
          omega (arith, sum),
        ))
  | inr (e, wrong) ↦ rw wrong (inl (e, refl, refl))
]
