-- ===== src/Bulk/Imports.antt =====
-- `import_json`, as a whole.
use assetlog.Prelude.{
  ℕ, suc, String, ◌≡◌, ◌⊎◌, refl, sym, ap, ◌∙◌, List, [], ◌∷◌, ◌++◌, length, arith, inl, inr,
  Option-cases, none,
}
use mathlib.Core.List.{append_assoc, append-nil}
use assetlog.Prelude.Int.{pos, ◌+ℤ◌, int_laws}
use assetlog.Db.{Database, Transaction, Action, Violation, Error, ok, err, csv_import_validation}
use assetlog.Trades.{get_remaining_quantity, first_negative}
use assetlog.Trades.Holdings.{IsCovered}
use assetlog.Trades.Balance.{first_negative-none}
use assetlog.Trades.Imports.{balance_end}
use assetlog.Bulk.Service.{
  user_asset_id_of, BulkRow, Resolved, resolve_rows, asset_timeline, validate_running_balance,
  insert_all, inserted_rows, uids_of, refuse_or, preview_of, count_errors, insert_and_preview,
  import_json,
}
use assetlog.Bulk.Balance.{
  change_at, remaining-insert_all, sum-asset_timeline, validated, All-distinct_ids, among,
}

refuse_or-cases {ℓ} :
    {A : Type ℓ} (vs : List Violation) (go : Action A) (db : Database)
    → ((e : Error) × (refuse_or vs go db ≡ (err e, db)))
      ⊎ ((vs ≡ []) × (refuse_or vs go db ≡ go db))
refuse_or-cases [] go db = inr (refl, refl)
refuse_or-cases (v ∷ vs) go db = inl (csv_import_validation (v ∷ vs), refl)

transactions-insert_all :
    (rows : List Resolved) (db : Database)
    → (insert_all rows db).transactions ≡ db.transactions ++ inserted_rows db.next_transaction rows
unfolding insert_all inserted_rows
transactions-insert_all [] db = sym (append-nil db.transactions)
transactions-insert_all ((uid, d) ∷ rows) db =
    transactions-insert_all rows _ ∙ append_assoc db.transactions _ _

length-inserted_rows :
    (next : ℕ) (rows : List Resolved) → length (inserted_rows next rows) ≡ length rows
unfolding inserted_rows
length-inserted_rows next [] = refl
length-inserted_rows next ((uid, d) ∷ rows) = ap suc (length-inserted_rows (suc next) rows)

module _ (upper : String → String) where
  abbrev pub found : List BulkRow → Database → List Resolved
  found rows db = (resolve_rows upper db 0 rows).1

  -- The ways in which the import ends.
  import_json-cases :
      (rows : List BulkRow) (db : Database)
      → ((e : Error) × (import_json upper rows db ≡ (err e, db)))
        ⊎ (((resolve_rows upper db 0 rows).0 ≡ [])
            × (validate_running_balance db (found rows db) (uids_of (found rows db)) ≡ [])
            × (import_json upper rows db ≡ insert_and_preview (found rows db) db))
  unfolding import_json
  import_json-cases rows db =
      let last =
        refuse_or (validate_running_balance db (found rows db) (uids_of (found rows db)))
          (insert_and_preview (found rows db)) in
      let errors = (resolve_rows upper db 0 rows).0 in
      elim (refuse_or-cases (count_errors rows) (refuse_or errors last) db) [
        | inl (e, out) ↦ inl (e, out)
        | inr (_, counted) ↦ elim (refuse_or-cases errors last db) [
          | inl (e, out) ↦ inl (e, counted ∙ out)
          | inr (resolved, named) ↦
              elim (refuse_or-cases
                (validate_running_balance db (found rows db) (uids_of (found rows db)))
                (insert_and_preview (found rows db)) db) [
                  | inl (e, out) ↦ inl (e, counted ∙ named ∙ out)
                  | inr (valid, out) ↦ inr (resolved, valid, counted ∙ named ∙ out)
                ]
        ]
      ]

  length-found :
      (db : Database) (idx : ℕ) (rows : List BulkRow)
      → (resolve_rows upper db idx rows).0 ≡ []
      → length (resolve_rows upper db idx rows).1 ≡ length rows
  unfolding resolve_rows
  length-found db idx [] e = refl
  length-found db idx (row ∷ rows) e =
      elim (Option-cases
        (user_asset_id_of db (upper row.symbol) (upper row.exchange) db.user_assets)) [
          | inl missing ↦ absurd (ground arith)
          | inr (uid, known) ↦ ground (arith, length-found db (suc idx) rows)
        ]

  -- All or nothing. A refused import changes nothing. An accepted one found an asset for every row; it
  -- appends one row for each, with fresh ids and in order, reports how many, and moves the holding of
  -- each asset by what its rows sum to.
  pub import_json_all_or_nothing :
      (rows : List BulkRow) (db : Database)
      → let resolved = found rows db in
        let (out, after) = import_json upper rows db in
        ((e : Error) × (import_json upper rows db ≡ (err e, db)))
        ⊎ ((preview : List Transaction) × (out ≡ ok (length rows, preview))
            × (length resolved ≡ length rows)
            × (after.transactions ≡ db.transactions ++ inserted_rows db.next_transaction resolved)
            × ((uid : ℕ)
                → get_remaining_quantity uid after
                  ≡ get_remaining_quantity uid db +ℤ change_at uid resolved))
  import_json_all_or_nothing rows db = elim (import_json-cases rows db) [
    | inl refused ↦ inl refused
    | inr (resolved, valid, out) ↦
        let all = length-found db 0 rows resolved in
        let shown = preview_of (inserted_rows db.next_transaction (found rows db)) in
        inr (
          rw out (
            shown,
            ap (λ n. ok (n, shown))
                (length-inserted_rows db.next_transaction (found rows db) ∙ all),
            all,
            transactions-insert_all (found rows db) db,
            λ uid. remaining-insert_all uid (found rows db) db,
          ))
  ]

  -- A bulk import never leaves an asset sold short, if none was before.
  pub import_json-IsCovered :
      (rows : List BulkRow) (db : Database) → IsCovered db → IsCovered (import_json upper rows db).1
  import_json-IsCovered rows db covered uid = elim (import_json-cases rows db) [
    | inl (e, refused) ↦ rw refused (covered uid)
    | inr (resolved, valid, out) ↦
        let trades = asset_timeline db (found rows db) in
        let passes =
          All-distinct_ids (λ u. first_negative (pos 0) (trades u) ≡ none) _
            (validated db (found rows db) (uids_of (found rows db)) valid) in
        rw (out, remaining-insert_all uid (found rows db) db)
          (elim (among (λ u. first_negative (pos 0) (trades u) ≡ none) uid (found rows db) passes) [
            | inl here ↦
                let final =
                  rw (balance_end (pos 0) (trades uid), sum-asset_timeline uid (found rows db) db)
                    at
                    ((first_negative-none (pos 0) (trades uid) (omega arith)).0 here
                      (length (trades uid))) in
                omega (int_laws, final)
            | inr zero ↦ rw zero (omega (int_laws, covered uid))
          ])
  ]
