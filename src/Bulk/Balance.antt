-- ===== src/Bulk/Balance.antt =====
-- What a bulk import does to the holdings.
use assetlog.Prelude.{
  ℕ, suc, not, ◌≡◌, ◌⊎◌, refl, none, List, [], ◌∷◌, map, filter, All, arith, ◌==◌, if◌then◌else◌,
  inl, inr, Bool-cases, Option-cases, ==_iff,
}
use assetlog.Prelude.Int.{ℤ, pos, ◌+ℤ◌, int_laws}
use assetlog.Prelude.Sums.{sum_of, sum_of-append}
use assetlog.Prelude.Sorting.{sum_of-sort}
use assetlog.Db.{Database}
use assetlog.Trades.{
  of_data, list_all_for_user_asset, get_remaining_quantity, signed, first_negative, by_time,
  of_existing,
}
use assetlog.Trades.Holdings.{change, remaining-append}
use assetlog.Trades.Imports.{sum-existing}
use assetlog.Bulk.Service.{
  Resolved, distinct_ids, new_proxies, asset_timeline, validate_running_balance, insert_all,
}

-- What the rows of one asset change together.
abbrev pub change_at : ℕ → List Resolved → ℤ
change_at uid rows =
    sum_of (λ (r : Resolved). if r.0 == uid then change r.1.type r.1.quantity else pos 0) rows

pub remaining-insert_all :
    (other : ℕ) (rows : List Resolved) (db : Database)
    → get_remaining_quantity other (insert_all rows db)
      ≡ get_remaining_quantity other db +ℤ change_at other rows
unfolding insert_all sum_of
remaining-insert_all other [] db = omega int_laws
remaining-insert_all other ((uid, d) ∷ rows) db =
    rw (remaining-insert_all other rows _)
      (grind (int_laws, remaining-append other (of_data db.next_transaction uid d) db _ refl))

sum-new_proxies :
    (uid idx : ℕ) (rows : List Resolved)
    → sum_of signed (new_proxies uid idx rows) ≡ change_at uid rows
unfolding new_proxies sum_of
sum-new_proxies uid idx [] = refl
sum-new_proxies uid idx ((u, d) ∷ rows) = grind (int_laws, sum-new_proxies uid (suc idx) rows)

pub sum-asset_timeline :
    (uid : ℕ) (rows : List Resolved) (db : Database)
    → sum_of signed (asset_timeline db rows uid)
      ≡ get_remaining_quantity uid db +ℤ change_at uid rows
unfolding asset_timeline
sum-asset_timeline uid rows db =
    rw
      (
        sum_of-sort signed by_time _,
        sum_of-append signed (map of_existing (list_all_for_user_asset uid db)) _,
        sum-existing uid db,
        sum-new_proxies uid 0 rows,
      )
      refl

pub validated :
    (db : Database) (rows : List Resolved) (uids : List ℕ)
    → validate_running_balance db rows uids ≡ []
    → All (λ uid. first_negative (pos 0) (asset_timeline db rows uid) ≡ none) uids
unfolding validate_running_balance
validated db rows [] e = tt
validated db rows (uid ∷ uids) e =
    elim (Option-cases (first_negative (pos 0) (asset_timeline db rows uid))) [
      | inl passes ↦ (passes, validated db rows uids (ground arith))
      | inr (p, fails) ↦ absurd (ground arith)
    ]

module _ (P : ℕ → Type 0) where
  All-unfiltered : (x : ℕ) (xs : List ℕ) → P x → All P (filter (λ y. not (y == x)) xs) → All P xs
  unfolding filter
  All-unfiltered x [] px h = tt
  All-unfiltered x (y ∷ xs) px h = elim (Bool-cases (y == x)) [
    | inl same ↦
        let there : y ≡ x = (==_iff y x).0 same in
        (rw there px, All-unfiltered x xs px (rw same at h))
    | inr other ↦
        let both : P y × All P (filter (λ z. not (z == x)) xs) = rw other at h in
        (both.0, All-unfiltered x xs px both.1)
  ]

  pub All-distinct_ids : (xs : List ℕ) → All P (distinct_ids xs) → All P xs
  unfolding distinct_ids
  All-distinct_ids [] h = tt
  All-distinct_ids (x ∷ xs) h =
      (h.0, All-distinct_ids xs (All-unfiltered x (distinct_ids xs) h.0 h.1))

  -- An asset is one of the rows', or the rows do not change it.
  pub among :
      (other : ℕ) (rows : List Resolved)
      → All P (map (λ (r : Resolved). r.0) rows)
      → P other ⊎ (change_at other rows ≡ pos 0)
  unfolding sum_of
  among other [] h = inr refl
  among other ((uid, d) ∷ rows) h = elim (Bool-cases (uid == other)) [
    | inl same ↦ inl (rw (← (==_iff uid other).0 same) h.0)
    | inr apart ↦ elim (among other rows h.1) [
      | inl here ↦ inl here
      | inr zero ↦ inr (rw (apart, zero) (omega int_laws))
    ]
  ]
