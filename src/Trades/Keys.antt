-- ===== src/Trades/Keys.antt =====
-- The primary key of the table of transactions, under every write.
use assetlog.Prelude.{
  ℕ, suc, ◌<◌, ◌≡◌, ◌≢◌, Bool, List, [], ◌∷◌, ◌++◌, map, filter, All, arith, inl, inr, Bool-cases,
}
use assetlog.Db.{Database, Transaction}
use assetlog.Trades.Rows.{HasDistinctIds}

-- Ids are distinct, and AUTO_INCREMENT is past them.
pub record HasKeys (db : Database) : Type 0 where
  pub distinct : HasDistinctIds db.transactions
  pub below : All (λ (tx : Transaction). tx.id < db.next_transaction) db.transactions

absent_below :
    (n : ℕ) (rows : List Transaction)
    → All (λ (tx : Transaction). tx.id < n) rows
    → All (λ (tx : Transaction). tx.id < suc n) rows
absent_below n [] h = tt
absent_below n (tx ∷ rows) h = (omega arith, absent_below n rows h.1)

distinct-append :
    (n : ℕ) (rows : List Transaction) (tx : Transaction)
    → tx.id ≡ n
    → HasDistinctIds rows
    → All (λ (u : Transaction). u.id < n) rows
    → HasDistinctIds (rows ++ tx ∷ [])
distinct-append n [] tx e d h = (tt, tt)
distinct-append n (u ∷ rows) tx e d h = (away rows d.0, distinct-append n rows tx e d.1 h.1)
  where
    away :
        (rest : List Transaction)
        → All (λ (v : Transaction). v.id ≢ u.id) rest
        → All (λ (v : Transaction). v.id ≢ u.id) (rest ++ tx ∷ [])
    away [] a = (omega arith, tt)
    away (v ∷ rest) a = (a.0, away rest a.1)

below-append :
    (n : ℕ) (rows : List Transaction) (tx : Transaction)
    → tx.id ≡ n
    → All (λ (u : Transaction). u.id < n) rows
    → All (λ (u : Transaction). u.id < suc n) (rows ++ tx ∷ [])
below-append n [] tx e h = (omega arith, tt)
below-append n (u ∷ rows) tx e h = (omega arith, below-append n rows tx e h.1)

-- One more row with the next id.
pub append-HasKeys :
    (db after : Database) (tx : Transaction)
    → tx.id ≡ db.next_transaction
    → after.transactions ≡ db.transactions ++ tx ∷ []
    → after.next_transaction ≡ suc db.next_transaction
    → HasKeys db
    → HasKeys after
append-HasKeys db after tx id rows next keys = record {
  distinct =
      rw rows (distinct-append db.next_transaction db.transactions tx id keys.distinct keys.below);
  below = rw (rows, next) (below-append db.next_transaction db.transactions tx id keys.below);
}

-- A map that keeps the ids, and a filter, keep the key.
module _ (g : Transaction → Transaction) (keeps : (tx : Transaction) → (g tx).id ≡ tx.id) where
  pub All-map_ids :
      (P : ℕ → Type 0) (rows : List Transaction)
      → All (λ (u : Transaction). P u.id) rows
      → All (λ (u : Transaction). P u.id) (map g rows)
  All-map_ids P [] h = tt
  All-map_ids P (u ∷ rows) h = (rw (keeps u) h.0, All-map_ids P rows h.1)

  pub HasDistinctIds-map :
      (rows : List Transaction) → HasDistinctIds rows → HasDistinctIds (map g rows)
  HasDistinctIds-map [] h = tt
  HasDistinctIds-map (u ∷ rows) h =
      (rw (keeps u) (All-map_ids (λ k. k ≢ u.id) rows h.0), HasDistinctIds-map rows h.1)

module _ (p : Transaction → Bool) where
  All-filter :
      (P : ℕ → Type 0) (rows : List Transaction)
      → All (λ (u : Transaction). P u.id) rows
      → All (λ (u : Transaction). P u.id) (filter p rows)
  unfolding filter
  All-filter P [] h = tt
  All-filter P (u ∷ rows) h = elim (Bool-cases (p u)) [
    | inl e ↦ rw e (h.0, All-filter P rows h.1)
    | inr e ↦ rw e (All-filter P rows h.1)
  ]

  pub HasDistinctIds-filter :
      (rows : List Transaction) → HasDistinctIds rows → HasDistinctIds (filter p rows)
  unfolding filter
  HasDistinctIds-filter [] h = tt
  HasDistinctIds-filter (u ∷ rows) h = elim (Bool-cases (p u)) [
    | inl e ↦ rw e (All-filter (λ k. k ≢ u.id) rows h.0, HasDistinctIds-filter rows h.1)
    | inr e ↦ rw e (HasDistinctIds-filter rows h.1)
  ]
