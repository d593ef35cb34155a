-- ===== src/Trades/Writes.antt =====
-- What `add`, `edit` and `remove` of `TransactionService` do to the holdings.
use assetlog.Prelude.{
  ℕ, ◌≡◌, ap, ◌≢◌, ◌⊎◌, refl, none, some, map, arith, ◌==◌, if◌then◌else◌, Option-cases, inl, inr,
  Bool-cases, suc, [], ◌∷◌, ◌++◌,
}
use native.Mathlib.Decide.{ℕ_discrete}
use assetlog.Prelude.Int.{pos, ◌+ℤ◌, ◌≤ℤ◌, int_laws}
use assetlog.Db.{
  Database, Transaction, buy, sell, is_buy, Error, Result, ok, err, not_found, insufficient_holding,
}
use assetlog.Trades.Repo.{
  TransactionData, create, get_summary, get_remaining_quantity, get_by_id_for_user_asset,
  overwrite_row, update, get_user_asset, of_data, overwrite,
}
use assetlog.Trades.Service.{add, edit, hypothetical_remaining}
use assetlog.Trades.Rows.{HasDistinctIds, sum_for-overwrite, sum_for-overwrite_ne}
use assetlog.Trades.Holdings.{change, change_of, remaining-eq-sum_for, IsCovered, remaining-append}

remaining-create :
    (uid other : ℕ) (d : TransactionData) (db : Database)
    → get_remaining_quantity other (create uid d db).1 ≡ (
        if uid == other
        then get_remaining_quantity other db +ℤ change d.type d.quantity
        else get_remaining_quantity other db)
unfolding create
remaining-create uid other d db =
    remaining-append other (of_data db.next_transaction uid d) db _ refl

-- The cases of `add`.
abbrev pub AddOutcome : ℕ → TransactionData → Database → Result Transaction × Database → Type 0
AddOutcome uid d db out =
    ((get_user_asset uid db ≡ none) × (out ≡ (err not_found, db)))
    ⊎ ((get_user_asset uid db ≢ none)
        × (d.type ≡ sell)
        × ¬ (d.quantity ≤ℤ get_remaining_quantity uid db)
        × (out ≡ (err insufficient_holding, db)))
    ⊎ ((get_user_asset uid db ≢ none)
        × ((d.type ≡ buy) ⊎ (d.quantity ≤ℤ get_remaining_quantity uid db))
        × (out ≡ (ok (of_data db.next_transaction uid d), (create uid d db).1)))

pub add_outcome :
    (uid : ℕ) (d : TransactionData) (db : Database) → AddOutcome uid d db (add uid d db)
unfolding add
add_outcome uid d db = ground arith

-- Adding a transaction is refused with the database left alone, and then the asset is unknown or the
-- transaction is a SELL that would leave less than nothing of it; or its row is returned with the next
-- id and stands after the others, the asset is known, a SELL leaves at least nothing of it, the
-- holding of the asset moves by the signed quantity, and no other holding moves.
pub add_moves :
    (uid : ℕ) (d : TransactionData) (db : Database)
    → let (r, after) = add uid d db in
      ((e : Error) × (r ≡ err e)
        × (after ≡ db)
        × ((get_user_asset uid db ≡ none)
            ⊎ ((d.type ≡ sell)
                × ¬ (pos 0 ≤ℤ get_remaining_quantity uid db +ℤ change d.type d.quantity))))
      ⊎ ((tx : Transaction) × (r ≡ ok tx)
          × (tx ≡ of_data db.next_transaction uid d)
          × (after.transactions ≡ db.transactions ++ tx ∷ [])
          × (after.next_transaction ≡ suc db.next_transaction)
          × (get_user_asset uid db ≢ none)
          × ((d.type ≡ buy) ⊎ (pos 0 ≤ℤ get_remaining_quantity uid after))
          × ((other : ℕ)
              → get_remaining_quantity other after ≡ (
                  if uid == other
                  then get_remaining_quantity other db +ℤ change d.type d.quantity
                  else get_remaining_quantity other db)))
add_moves uid d db = elim (add_outcome uid d db) [
  | inl (unknown, e) ↦ rw e (inl (not_found, refl, refl, inl unknown))
  | inr (inl (known, sale, short, e)) ↦
      rw e (inl (insufficient_holding, refl, refl, inr (sale, grind (int_laws, short, sale))))
  | inr (inr (known, fits, e)) ↦ rw e (
      inr (
        of_data db.next_transaction uid d,
        refl,
        refl,
        unfold create in refl,
        unfold create in refl,
        known,
        covered_by fits,
        λ other. remaining-create uid other d db,
      ))
]
  where
    covered_by :
        (d.type ≡ buy) ⊎ (d.quantity ≤ℤ get_remaining_quantity uid db)
        → (d.type ≡ buy) ⊎ (pos 0 ≤ℤ get_remaining_quantity uid (create uid d db).1)
    covered_by (inl bought) = inl bought
    covered_by (inr fits) = elim (Bool-cases (is_buy d.type)) [
      | inl bought ↦ inl (ground (arith, bought))
      | inr sold ↦ inr (grind (int_laws, remaining-create uid uid d db, fits, sold))
    ]

-- `add` never leaves an asset sold short, if none was before.
pub add-IsCovered :
    (uid : ℕ) (d : TransactionData) (db : Database)
    → pos 0 ≤ℤ d.quantity
    → IsCovered db
    → IsCovered (add uid d db).1
add-IsCovered uid d db q covered other = elim (add_outcome uid d db) [
  | inl (_, e) ↦ rw e (covered other)
  | inr (inl (_, _, _, e)) ↦ rw e (covered other)
  | inr (inr (_, fits, e)) ↦
      rw e (grind (int_laws, remaining-create uid other d db, covered other, fits))
]

-- The test of `edit` looks at exactly what the edit would leave.
abbrev pub EditOutcome : ℕ → ℕ → TransactionData → Database → Result Transaction × Database → Type 0
EditOutcome uid tid d db out =
    (((get_user_asset uid db ≡ none) ⊎ (get_by_id_for_user_asset tid uid db ≡ none))
      × (out ≡ (err not_found, db)))
    ⊎ ((tx : Transaction) × (get_by_id_for_user_asset tid uid db ≡ some tx)
        × ((¬ (pos 0 ≤ℤ hypothetical_remaining (get_summary uid db) tx d)
              × (out ≡ (err insufficient_holding, db)))
            ⊎ ((pos 0 ≤ℤ hypothetical_remaining (get_summary uid db) tx d)
                × (out ≡ (ok (overwrite d tx), (update tid uid d db).1)))))

edit_outcome :
    (uid tid : ℕ) (d : TransactionData) (db : Database)
    → EditOutcome uid tid d db (edit uid tid d db)
unfolding edit
edit_outcome uid tid d db = elim (Option-cases (get_user_asset uid db)) [
  | inl missing ↦ inl (inl missing, ground arith)
  | inr (ua, known) ↦ elim (Option-cases (get_by_id_for_user_asset tid uid db)) [
    | inl missing ↦ inl (inr missing, ground arith)
    | inr (tx, found) ↦ inr (tx, found, ground arith)
  ]
]

hypothetical-remaining :
    (uid : ℕ) (tx : Transaction) (d : TransactionData) (db : Database)
    → hypothetical_remaining (get_summary uid db) tx d +ℤ change_of tx
      ≡ get_remaining_quantity uid db +ℤ change d.type d.quantity
unfolding hypothetical_remaining get_remaining_quantity
hypothetical-remaining uid tx d db = grind int_laws

transactions-update :
    (tid uid : ℕ) (d : TransactionData) (db : Database) (tx : Transaction)
    → get_by_id_for_user_asset tid uid db ≡ some tx
    → (update tid uid d db).1.transactions ≡ map (overwrite_row tid uid d) db.transactions
unfolding update
transactions-update tid uid d db tx found = ground arith

remaining-update :
    (uid tid : ℕ) (d : TransactionData) (db : Database) (tx : Transaction)
    → HasDistinctIds db.transactions
    → get_by_id_for_user_asset tid uid db ≡ some tx
    → get_remaining_quantity uid (update tid uid d db).1 +ℤ change_of tx
      ≡ get_remaining_quantity uid db +ℤ change d.type d.quantity
remaining-update uid tid d db tx ids found =
    rw
      (
        remaining-eq-sum_for uid (update tid uid d db).1,
        remaining-eq-sum_for uid db,
        transactions-update tid uid d db tx found,
      )
      (unfold get_by_id_for_user_asset in
        sum_for-overwrite change_of tid uid d db.transactions tx ids found)

remaining-update_ne :
    (uid tid other : ℕ) (d : TransactionData) (db : Database)
    → (tx : Transaction) → get_by_id_for_user_asset tid uid db ≡ some tx
    → other ≢ uid
    → get_remaining_quantity other (update tid uid d db).1 ≡ get_remaining_quantity other db
remaining-update_ne uid tid other d db tx found ne =
    rw
      (
        remaining-eq-sum_for other (update tid uid d db).1,
        remaining-eq-sum_for other db,
        transactions-update tid uid d db tx found,
      )
      (sum_for-overwrite_ne change_of tid uid other d db.transactions ne)

-- An accepted edit replaces the old row's change of the holding by the new one's, leaves the holding
-- at 0 or above, and moves no other asset.
pub edit_moves :
    (uid tid : ℕ) (d : TransactionData) (db : Database) (old new : Transaction)
    → HasDistinctIds db.transactions
    → get_by_id_for_user_asset tid uid db ≡ some old
    → (edit uid tid d db).0 ≡ ok new
    → let after = (edit uid tid d db).1 in
      (new ≡ overwrite d old)
      × (get_remaining_quantity uid after +ℤ change_of old
          ≡ get_remaining_quantity uid db +ℤ change d.type d.quantity)
      × (pos 0 ≤ℤ get_remaining_quantity uid after)
      × ((other : ℕ)
          → other ≢ uid
          → get_remaining_quantity other after ≡ get_remaining_quantity other db)
edit_moves uid tid d db old new ids found accepted = elim (edit_outcome uid tid d db) [
  | inl (_, e) ↦ cc (ap (λ r. r.0) e)
  | inr (tx, f, inl (_, e)) ↦ cc (ap (λ r. r.0) e)
  | inr (tx, f, inr (fits, e)) ↦
      let same : tx ≡ old = ground arith in
      let moved = remaining-update uid tid d db old ids found in
      let tested = hypothetical-remaining uid old d db in
      rw e (
        ground (arith, ap (λ r. r.0) e),
        moved,
        grind (int_laws, rw same at fits),
        λ other. remaining-update_ne uid tid other d db old found,
      )
]

-- `edit` never leaves an asset sold short, if none was before.
pub edit-IsCovered :
    (uid tid : ℕ) (d : TransactionData) (db : Database)
    → HasDistinctIds db.transactions
    → IsCovered db
    → IsCovered (edit uid tid d db).1
edit-IsCovered uid tid d db ids covered other = elim (edit_outcome uid tid d db) [
  | inl (_, e) ↦ rw e (covered other)
  | inr (tx, f, inl (_, e)) ↦ rw e (covered other)
  | inr (tx, f, inr (_, e)) ↦
      let (_, _, own, others) =
        edit_moves uid tid d db tx (overwrite d tx) ids f (ap (λ r. r.0) e) in
      elim (ℕ_discrete other uid) [
        | yes same ↦ rw same own
        | no ne ↦ rw (others other ne) (covered other)
      ]
]
