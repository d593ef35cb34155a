-- ===== src/Portfolio/Grouped.antt =====
-- The transactions of one asset, out of one query for all of them.
use assetlog.Prelude.{
  ℕ, true, ◌≡◌, refl, ap, ◌∙◌, sym, List, [], ◌∷◌, ◌++◌, filter, any, arith, ◌==◌, inl, inr,
  Bool-cases, append-nil,
}
use assetlog.Prelude.Keyed.{Keyed, at_key_or, set_key, at_key_or-set_key}
use assetlog.Prelude.Sorting.{sort}
use assetlog.Prelude.Filtering.{IsOrder, filter-sort}
use assetlog.Db.{Database, Transaction}
use assetlog.Trades.{chronological, is_of, list_all_for_user_asset}
use assetlog.Portfolio.Holdings.{with_asset, group_by_asset, load_transactions_ordered}

chronological-IsOrder : IsOrder chronological
chronological-IsOrder = record {
  trans = λ a b c h k. ground (arith, h, k);
  total = λ a b h. ground (arith, h);
}

append_one {ℓ} :
    {A : Type ℓ} (xs : List A) (y : A) (zs : List A) → (xs ++ y ∷ []) ++ zs ≡ xs ++ y ∷ zs
append_one [] y zs = refl
append_one (x ∷ xs) y zs = ap (λ l. x ∷ l) (append_one xs y zs)

module _ (uid : ℕ) where
  grouped :
      (rows : List Transaction) (out : Keyed (List Transaction))
      → at_key_or uid [] (group_by_asset rows out) ≡ at_key_or uid [] out ++ filter (is_of uid) rows
  unfolding group_by_asset filter
  grouped [] out = sym (append-nil (at_key_or uid [] out))
  grouped (tx ∷ rows) out =
      let own = at_key_or tx.user_asset_id [] out in
      grouped rows (set_key tx.user_asset_id (own ++ tx ∷ []) out)
      ∙ ap (λ txs. txs ++ filter (is_of uid) rows)
          (at_key_or-set_key tx.user_asset_id uid (own ++ tx ∷ []) [] out)
      ∙ elim (Bool-cases (tx.user_asset_id == uid)) [
        | inl here ↦
            let same : tx.user_asset_id ≡ uid = ground arith in
            let moved = append_one own tx (filter (is_of uid) rows) in
            rw here (moved ∙ ap (λ k. at_key_or k [] out ++ tx ∷ filter (is_of uid) rows) same)
        | inr other ↦ rw other refl
      ]

  own_rows :
      (ids : List ℕ) (rows : List Transaction)
      → any (λ id. id == uid) ids ≡ true
      → filter (is_of uid) (filter (with_asset ids) rows) ≡ filter (is_of uid) rows
  unfolding filter
  own_rows ids [] there = refl
  own_rows ids (tx ∷ rows) there = elim (Bool-cases (tx.user_asset_id == uid)) [
    | inl here ↦
        let same : tx.user_asset_id ≡ uid = ground arith in
        let kept : with_asset ids tx ≡ true = ap (λ k. any (λ id. id == k) ids) same ∙ there in
        rw (kept, here) (ap (λ txs. tx ∷ txs) (own_rows ids rows there))
    | inr other ↦ ground (arith, other, own_rows ids rows there)
  ]

  -- One asset's part of the query for many assets is the query for it.
  pub load_transactions_ordered_lem :
      (ids : List ℕ) (db : Database)
      → any (λ id. id == uid) ids ≡ true
      → at_key_or uid [] (load_transactions_ordered ids db) ≡ list_all_for_user_asset uid db
  unfolding load_transactions_ordered list_all_for_user_asset at_key_or
  load_transactions_ordered_lem ids db there =
      grouped (sort chronological (filter (with_asset ids) db.transactions)) []
      ∙ filter-sort chronological chronological-IsOrder (is_of uid)
          (filter (with_asset ids) db.transactions)
      ∙ ap (sort chronological) (own_rows ids db.transactions there)
