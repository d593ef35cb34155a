-- ===== src/Sync/Steps.antt =====
-- What one row of an import does to the table of transactions.
use assetlog.Prelude.{
  ℕ, suc, String, ◌≡◌, refl, false, Option, ◌∙◌, none, some, [], ◌∷◌, ◌++◌, arith,
}
use assetlog.Db.{Database, AssetSymbol, AssetType, UserAsset, Result, ok, bind-ok}
use assetlog.Sync.Symbols.{
  or_create_symbol, or_create_user_asset, Resolvers, get_or_create_symbol_by_attrs,
  get_or_create_user_asset,
}
use assetlog.Sync.Trades.{
  keep_symbol, keep_asset, insert_for, insert_under, or_look_up_symbol, or_look_up_asset, Incoming,
  Progress, has_key, cached_symbol, cached_asset, new_row, insert_transaction, insert_step,
}

abbrev SameTrades : Database → Database → Type 0
SameTrades before after =
    (after.transactions ≡ before.transactions) × (after.next_transaction ≡ before.next_transaction)

abbrev SameCounts : Progress → Progress → Type 0
SameCounts p q =
    (q.existing_ids ≡ p.existing_ids) × (q.inserted ≡ p.inserted) × (q.skipped_dup ≡ p.skipped_dup)

-- An action on the caches that always succeeds and leaves the trades and the counts alone.
abbrev Finds {ℓ} : {A : Type ℓ} → Progress → Database → Result (A × Progress) × Database → Type ℓ
Finds p db out =
    (a : _) × (q : Progress) × (after : Database) × (out ≡ (ok (a, q), after))
    × SameTrades db after
    × SameCounts p q

abbrev Succeeds {ℓ} : {A : Type ℓ} → Database → Result A × Database → Type ℓ
Succeeds db out = (a : _) × (after : Database) × (out ≡ (ok a, after)) × SameTrades db after

or_create_symbol-Succeeds :
    (o : Option AssetSymbol) (symbol : String) (t : AssetType) (exchange currency : String)
    (name : Option String) (db : Database)
    → Succeeds db (or_create_symbol o symbol t exchange currency name db)
or_create_symbol-Succeeds (some existing) symbol t exchange currency name db =
    (_, _, refl, (refl, refl))
or_create_symbol-Succeeds none symbol t exchange currency name db = (_, _, refl, (refl, refl))

symbol-Succeeds :
    (env : Resolvers) (row : Incoming) (db : Database)
    → Succeeds db (
        get_or_create_symbol_by_attrs env row.symbol row.asset_type row.exchange row.currency
          row.name db)
unfolding get_or_create_symbol_by_attrs
symbol-Succeeds env row db = or_create_symbol-Succeeds _ _ _ _ _ _ db

or_create_user_asset-Succeeds :
    (o : Option UserAsset) (symbol_id : ℕ) (db : Database)
    → Succeeds db (or_create_user_asset o symbol_id db)
or_create_user_asset-Succeeds (some existing) symbol_id db = (_, _, refl, (refl, refl))
or_create_user_asset-Succeeds none symbol_id db = (_, _, refl, (refl, refl))

user_asset-Succeeds :
    (symbol_id : ℕ) (db : Database) → Succeeds db (get_or_create_user_asset symbol_id db)
unfolding get_or_create_user_asset
user_asset-Succeeds symbol_id db = or_create_user_asset-Succeeds _ symbol_id db

or_look_up_symbol-Finds :
    (o : Option (Incoming × AssetSymbol)) (env : Resolvers) (row : Incoming) (p : Progress)
    (db : Database)
    → Finds p db (or_look_up_symbol o env row p db)
or_look_up_symbol-Finds (some (_, symbol)) env row p db =
    (_, _, _, refl, (refl, refl), (refl, refl, refl))
or_look_up_symbol-Finds none env row p db =
    let (symbol, after, e, same) = symbol-Succeeds env row db in
    (
      symbol,
      _,
      after,
      bind-ok
          (get_or_create_symbol_by_attrs env row.symbol row.asset_type row.exchange row.currency
            row.name)
          (keep_symbol row p) db after symbol e,
      same,
      (refl, refl, refl),
    )

or_look_up_asset-Finds :
    (o : Option (ℕ × UserAsset)) (symbol_id : ℕ) (p : Progress) (db : Database)
    → Finds p db (or_look_up_asset o symbol_id p db)
or_look_up_asset-Finds (some (_, asset)) symbol_id p db =
    (_, _, _, refl, (refl, refl), (refl, refl, refl))
or_look_up_asset-Finds none symbol_id p db =
    let (asset, after, e, same) = user_asset-Succeeds symbol_id db in
    (
      asset,
      _,
      after,
      bind-ok (get_or_create_user_asset symbol_id) (keep_asset symbol_id p) db after asset e,
      same,
      (refl, refl, refl),
    )

cached_symbol-Finds :
    (env : Resolvers) (row : Incoming) (p : Progress) (db : Database)
    → Finds p db (cached_symbol env row p db)
unfolding cached_symbol
cached_symbol-Finds env row p db = or_look_up_symbol-Finds _ env row p db

cached_asset-Finds :
    (symbol_id : ℕ) (p : Progress) (db : Database) → Finds p db (cached_asset symbol_id p db)
unfolding cached_asset
cached_asset-Finds symbol_id p db = or_look_up_asset-Finds _ symbol_id p db

-- What a row that goes in leaves.
pub record Inserted (source : String) (row : Incoming) (p q : Progress) (before after : Database)
    : Type 0 where
  pub asset_id : ℕ
  pub rows :
      after.transactions
      ≡ before.transactions ++ new_row source row asset_id before.next_transaction ∷ []
  pub next : after.next_transaction ≡ suc before.next_transaction
  pub ids : q.existing_ids ≡ row.external_id ∷ p.existing_ids
  pub inserted : q.inserted ≡ suc p.inserted
  pub skipped : q.skipped_dup ≡ p.skipped_dup

insert_for-free :
    (source : String) (row : Incoming) (asset : UserAsset) (p : Progress) (db : Database)
    → has_key source row.external_id db.transactions ≡ false
    → insert_for source row (asset, p) db ≡ (
      ok (record p { existing_ids = row.external_id ∷ p.existing_ids; inserted = suc p.inserted }),
      record db {
        transactions = db.transactions ++ new_row source row asset.id db.next_transaction ∷ [];
        next_transaction = suc db.next_transaction;
      },
    )
unfolding insert_transaction
insert_for-free source row asset p db free = ground arith

pub insert_step-free :
    (env : Resolvers) (source : String) (row : Incoming) (p : Progress) (db : Database)
    → has_key source row.external_id db.transactions ≡ false
    → (q : Progress) × (after : Database) × (insert_step env source row p db ≡ (ok q, after))
      × Inserted source row p q db after
unfolding insert_step
insert_step-free env source row p db free =
    let (symbol, p1, db1, e1, (t1, n1), (i1, c1, s1)) = cached_symbol-Finds env row p db in
    let (asset, p2, db2, e2, (t2, n2), (i2, c2, s2)) = cached_asset-Finds symbol.id p1 db1 in
    let still : has_key source row.external_id db2.transactions ≡ false = rw (t2, t1) free in
    (
      _,
      _,
      bind-ok (cached_symbol env row p) (insert_under source row) db db1 (symbol, p1) e1
          ∙ bind-ok (cached_asset symbol.id p1) (insert_for source row) db1 db2 (asset, p2) e2
          ∙ insert_for-free source row asset p2 db2 still,
      record {
        asset_id = asset.id;
        rows = rw (t2, t1, n2, n1) refl;
        next = rw (n2, n1) refl;
        ids = rw (i2, i1) refl;
        inserted = rw (c2, c1) refl;
        skipped = s2 ∙ s1;
      },
    )
