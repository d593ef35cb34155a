-- ===== src/Trades/Imports.antt =====
-- What an import of validated rows does: all of them are written, or nothing is.
use assetlog.Prelude.{
  ℕ, suc, ◌≡◌, ap, ◌∙◌, ◌≢◌, ◌⊎◌, ◌↔◌, refl, none, some, List, [], ◌∷◌, ◌++◌, map, length, take,
  filter, arith, ◌==◌, if◌then◌else◌, Option-cases, inl, inr, take-length,
}
use mathlib.Core.List.{append_assoc, append-nil}
use assetlog.Prelude.Int.{ℤ, pos, ◌+ℤ◌, ◌≤ℤ◌, int_laws}
use assetlog.Prelude.Sums.{sum_of, sum_of-append, sum_of-map}
use assetlog.Prelude.Sorting.{sort, sum_of-sort}
use assetlog.Db.{Database, Transaction, Error, ok, err, not_found, csv_import_validation}
use assetlog.Trades.Repo.{
  TransactionData, of_data, is_of, chronological, get_user_asset, list_all_for_user_asset,
  get_remaining_quantity,
}
use assetlog.Trades.Timeline.{
  Proxy, signed, of_existing, of_data_row, by_time, first_negative, add_all,
}
use assetlog.Trades.Service.{import_rows, timeline, new_rows, oldest_first, balance_violation}
use assetlog.Trades.Rows.{sum_for}
use assetlog.Trades.Holdings.{change, change_of, remaining-eq-sum_for, IsCovered, remaining-append}
use assetlog.Trades.Keys.{HasKeys, append-HasKeys}
use assetlog.Trades.Balance.{balance_after, first_negative-none}

-- The change of the holding that the new rows make together.
abbrev pub change_all : List TransactionData → ℤ
change_all rows = sum_of (λ (d : TransactionData). change d.type d.quantity) rows

pub transactions-add_all :
    (uid : ℕ) (rows : List TransactionData) (db : Database)
    → (add_all uid rows db).transactions ≡ db.transactions ++ new_rows db.next_transaction uid rows
unfolding add_all new_rows
transactions-add_all uid [] db = rw append-nil
transactions-add_all uid (d ∷ rows) db =
    rw (transactions-add_all uid rows _) (append_assoc db.transactions _ _)

length-new_rows :
    (next uid : ℕ) (rows : List TransactionData) → length (new_rows next uid rows) ≡ length rows
unfolding new_rows
length-new_rows next uid [] = refl
length-new_rows next uid (d ∷ rows) = ap suc (length-new_rows (suc next) uid rows)

add_all-HasKeys :
    (uid : ℕ) (rows : List TransactionData) (db : Database)
    → HasKeys db
    → HasKeys (add_all uid rows db)
unfolding add_all
add_all-HasKeys uid [] db keys = keys
add_all-HasKeys uid (d ∷ rows) db keys =
    add_all-HasKeys uid rows _
      (append-HasKeys db _ (of_data db.next_transaction uid d) refl refl refl keys)

remaining-add_all :
    (uid other : ℕ) (rows : List TransactionData) (db : Database)
    → get_remaining_quantity other (add_all uid rows db) ≡ (
        if uid == other
        then get_remaining_quantity other db +ℤ change_all rows
        else get_remaining_quantity other db)
unfolding add_all sum_of
remaining-add_all uid other [] db = grind int_laws
remaining-add_all uid other (d ∷ rows) db =
    rw (remaining-add_all uid other rows _)
      (grind (int_laws, remaining-append other (of_data db.next_transaction uid d) db _ refl))

-- The transactions of the asset sum to its holding, in the order of the query too.
pub sum-existing :
    (uid : ℕ) (db : Database)
    → sum_of signed (map of_existing (list_all_for_user_asset uid db))
      ≡ get_remaining_quantity uid db
unfolding list_all_for_user_asset
sum-existing uid db =
    sum_of-map signed of_existing (list_all_for_user_asset uid db)
    ∙ rw (remaining-eq-sum_for uid db)
        (unfold sum_for in sum_of-sort change_of chronological (filter (is_of uid) db.transactions))

-- The balance at the end of the timeline is the holding with the new rows.
sum-timeline :
    (uid : ℕ) (rows : List TransactionData) (db : Database)
    → sum_of signed (timeline (list_all_for_user_asset uid db) rows)
      ≡ get_remaining_quantity uid db +ℤ change_all rows
unfolding timeline list_all_for_user_asset
sum-timeline uid rows db =
    rw
      (
        sum_of-sort signed by_time _,
        sum_of-append signed (map of_existing (list_all_for_user_asset uid db)) _,
        sum_of-map signed of_existing _,
        sum_of-map signed (of_data_row 0) rows,
        remaining-eq-sum_for uid db,
      )
      (unfold sum_for in
        ap (λ s. s +ℤ change_all rows)
          (sum_of-sort change_of chronological (filter (is_of uid) db.transactions)))

-- The ways in which the import ends.
import_outcome :
    (uid : ℕ) (rows : List TransactionData) (db : Database)
    → ((get_user_asset uid db ≡ none) × (import_rows uid rows db ≡ (err not_found, db)))
      ⊎ ((p : Proxy) × (first_negative (pos 0) (timeline (list_all_for_user_asset uid db) rows)
            ≡ some p)
          × (import_rows uid rows db ≡ (err (csv_import_validation (balance_violation ∷ [])), db)))
      ⊎ ((get_user_asset uid db ≢ none)
          × (first_negative (pos 0) (timeline (list_all_for_user_asset uid db) rows) ≡ none)
          × (import_rows uid rows db ≡ (
            ok (
              length (new_rows db.next_transaction uid rows),
              take 10 (sort oldest_first (new_rows db.next_transaction uid rows)),
            ),
            add_all uid rows db,
          )))
unfolding import_rows
import_outcome uid rows db = elim (Option-cases (get_user_asset uid db)) [
  | inl missing ↦ inl (missing, ground arith)
  | inr (ua, known) ↦
      elim (Option-cases
        (first_negative (pos 0) (timeline (list_all_for_user_asset uid db) rows))) [
          | inl passes ↦ inr (inr (cc, passes, ground arith))
          | inr (p, fails) ↦ inr (inl (p, fails, ground arith))
        ]
]

pub balance_end :
    (start : ℤ) (trades : List Proxy)
    → balance_after start trades (length trades) ≡ start +ℤ sum_of signed trades
balance_end start trades = ap (λ xs. start +ℤ sum_of signed xs) (take-length trades)

-- All or nothing. A refused import changes nothing. An accepted one appends a row for each item of
-- the file, in order and with fresh ids, reports how many, moves the holding of its asset by what
-- the items sum to and that of no other asset.
pub import_rows_all_or_nothing :
    (uid : ℕ) (rows : List TransactionData) (db : Database)
    → HasKeys db
    → ((e : Error) × (import_rows uid rows db ≡ (err e, db)))
      ⊎ (let (r, after) = import_rows uid rows db in
          (preview : List Transaction) × (r ≡ ok (length rows, preview))
          × (after.transactions ≡ db.transactions ++ new_rows db.next_transaction uid rows)
          × HasKeys after
          × ((other : ℕ)
              → get_remaining_quantity other after ≡ (
                  if uid == other
                  then get_remaining_quantity other db +ℤ change_all rows
                  else get_remaining_quantity other db)))
import_rows_all_or_nothing uid rows db keys = elim (import_outcome uid rows db) [
  | inl (_, e) ↦ inl (not_found, e)
  | inr (inl (p, _, e)) ↦ inl (csv_import_validation (balance_violation ∷ []), e)
  | inr (inr (_, _, e)) ↦ inr (
      rw e (
        take 10 (sort oldest_first (new_rows db.next_transaction uid rows)),
        ap (λ n. ok (n, take 10 (sort oldest_first (new_rows db.next_transaction uid rows))))
            (length-new_rows db.next_transaction uid rows),
        transactions-add_all uid rows db,
        add_all-HasKeys uid rows db keys,
        λ other. remaining-add_all uid other rows db,
      ))
]

-- For a known asset the import is accepted exactly if, over its old and new transactions by time,
-- the balance never falls below 0.
pub import_rows_accepts :
    (uid : ℕ) (rows : List TransactionData) (db : Database)
    → get_user_asset uid db ≢ none
    → ((r : ℕ × List Transaction) × ((import_rows uid rows db).0 ≡ ok r)) ↔ (
        (n : ℕ) → pos 0 ≤ℤ balance_after (pos 0) (timeline (list_all_for_user_asset uid db) rows) n)
import_rows_accepts uid rows db known =
    let checked =
      first_negative-none (pos 0) (timeline (list_all_for_user_asset uid db) rows) (omega arith) in
    elim (import_outcome uid rows db) [
      | inl (missing, e) ↦ absurd (known missing)
      | inr (inl (p, fails, e)) ↦
          (λ (r, accepted). cc (ap (λ out. out.0) e), λ all. cc (checked.1 all))
      | inr (inr (_, passes, e)) ↦ (λ _. checked.0 passes, λ _. (_, ap (λ out. out.0) e))
    ]

-- An import never leaves an asset sold short, if no other asset was before.
pub import_rows-IsCovered :
    (uid : ℕ) (rows : List TransactionData) (db : Database)
    → IsCovered db
    → IsCovered (import_rows uid rows db).1
import_rows-IsCovered uid rows db covered other = elim (import_outcome uid rows db) [
  | inl (_, e) ↦ rw e (covered other)
  | inr (inl (p, _, e)) ↦ rw e (covered other)
  | inr (inr (_, passes, e)) ↦
      let trades = timeline (list_all_for_user_asset uid db) rows in
      let checked = first_negative-none (pos 0) trades (omega arith) in
      let final =
        rw (balance_end (pos 0) trades, sum-timeline uid rows db) at
          (checked.0 passes (length trades)) in
      rw e (grind (int_laws, remaining-add_all uid other rows db, covered other, final))
]
