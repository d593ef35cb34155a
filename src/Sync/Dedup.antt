-- ===== src/Sync/Dedup.antt =====
-- An import of trades: every row is inserted or skipped, no key comes twice, and once is enough.
use assetlog.Prelude.{
  text_same, suc, ◌+◌, String, ◌||◌, ◌≡◌, refl, sym, ap, ◌∙◌, true, false, List, [], ◌∷◌, ◌++◌,
  length, arith, eq_iff, ◌==ₛ◌, inl, inr, Bool-cases,
}
use mathlib.Core.List.{append_assoc, append-nil}
use assetlog.Db.{Database, Transaction, ok, bind-ok}
use assetlog.Sync.Symbols.{Resolvers}
use assetlog.Sync.Trades.{
  Incoming, Progress, begin, elem, has_key, ids_of, existing_tx_external_ids, new_row, import_step,
  for_each, import_new,
}
use assetlog.Sync.Steps.{Inserted, insert_step-free}
use assetlog.Sync.Lookup.{has_key-append, elem-existing, UniqueKeys, UniqueKeys-append}

-- The ids that a run takes for known are those of the table, for the rows still to come.
abbrev pub Tracks : String → List Incoming → Progress → Database → Type 0
Tracks source rows p db =
    (e : String)
    → elem e (ids_of rows) ≡ true
    → elem e p.existing_ids ≡ has_key source e db.transactions

-- What a run over `rows` does.
pub record Ran (source : String) (rows : List Incoming) (p q : Progress) (before after : Database)
    : Type 0 where
  pub new : List Transaction
  pub appended : after.transactions ≡ before.transactions ++ new
  pub counted : p.inserted + length new ≡ q.inserted
  pub all_seen : q.inserted + q.skipped_dup ≡ p.inserted + p.skipped_dup + length rows
  pub keyed :
      (e : String)
      → has_key source e after.transactions
        ≡ (has_key source e before.transactions || elem e (ids_of rows))
  pub unique : UniqueKeys before.transactions → UniqueKeys after.transactions

module _ (env : Resolvers) (source : String) where
  tracked :
      (row : Incoming) (rest : List Incoming) (p : Progress) (db : Database)
      → Tracks source (row ∷ rest) p db
      → elem row.external_id p.existing_ids ≡ has_key source row.external_id db.transactions
  tracked row rest p db tracks = tracks row.external_id (ground (arith, text_same row.external_id))

  Tracks-rest :
      (row : Incoming) (rest : List Incoming) (p : Progress) (db : Database)
      → Tracks source (row ∷ rest) p db
      → Tracks source rest p db
  Tracks-rest row rest p db tracks e h = tracks e (ground arith)

  Tracks-insert :
      (row : Incoming) (rest : List Incoming) (p q : Progress) (db after : Database)
      → Inserted source row p q db after
      → Tracks source (row ∷ rest) p db
      → Tracks source rest q after
  Tracks-insert row rest p q db after done tracks e h =
      rw
        (
          done.ids,
          done.rows,
          has_key-append source e db.transactions row done.asset_id db.next_transaction,
        )
        (ground (arith, tracks e))

  -- A row that is skipped, before a run of the others.
  Ran-skip :
      (row : Incoming) (rest : List Incoming) (p q : Progress) (db after : Database)
      → has_key source row.external_id db.transactions ≡ true
      → Ran source rest (record p { skipped_dup = suc p.skipped_dup }) q db after
      → Ran source (row ∷ rest) p q db after
  Ran-skip row rest p q db after held ran = record {
    new = ran.new;
    appended = ran.appended;
    counted = ran.counted;
    all_seen = omega (arith, ran.all_seen);
    keyed = λ e. elim (Bool-cases (row.external_id ==ₛ e)) [
      | inl same ↦
          let there : has_key source e db.transactions ≡ true =
            rw (← (eq_iff row.external_id e).0 same) held in
          ground (arith, ran.keyed e)
      | inr other ↦ ground (arith, ran.keyed e)
    ];
    unique = ran.unique;
  }

  -- A row that goes in, before a run of the others.
  pub Ran-insert :
      (row : Incoming) (rest : List Incoming) (p mid q : Progress) (db between after : Database)
      → has_key source row.external_id db.transactions ≡ false
      → Inserted source row p mid db between
      → Ran source rest mid q between after
      → Ran source (row ∷ rest) p q db after
  Ran-insert row rest p mid q db between after free done ran =
      let added = new_row source row done.asset_id db.next_transaction in
      record {
        new = added ∷ ran.new;
        appended =
            ran.appended
            ∙ ap (λ rows. rows ++ ran.new) done.rows
            ∙ append_assoc db.transactions (added ∷ []) ran.new;
        counted = omega (arith, ran.counted, done.inserted);
        all_seen = omega (arith, ran.all_seen, done.inserted, done.skipped);
        keyed = λ e.
            ran.keyed e
            ∙ ap (λ rows. has_key source e rows || elem e (ids_of rest)) done.rows
            ∙ rw (has_key-append source e db.transactions row done.asset_id db.next_transaction)
                (ground arith);
        unique = λ u. ran.unique (
            rw done.rows (
              UniqueKeys-append source db.transactions row done.asset_id db.next_transaction free
                u));
      }

  pub for_each-Ran :
      (rows : List Incoming) (p : Progress) (db : Database)
      → Tracks source rows p db
      → (q : Progress) × (after : Database) × (for_each (import_step env source) rows p db
          ≡ (ok q, after))
        × Ran source rows p q db after
  unfolding for_each import_step
  for_each-Ran [] p db tracks = (
    p,
    db,
    refl,
    record {
      new = [];
      appended = sym (append-nil db.transactions);
      counted = omega arith;
      all_seen = omega arith;
      keyed = λ e. ground arith;
      unique = λ u. u;
    },
  )
  for_each-Ran (row ∷ rest) p db tracks = elim (Bool-cases (elem row.external_id p.existing_ids)) [
    | inl known ↦
        let p' = record p { skipped_dup = suc p.skipped_dup } in
        let (q, after, e, ran) = for_each-Ran rest p' db (Tracks-rest row rest p db tracks) in
        (
          q,
          after,
          bind-ok (import_step env source row p) (for_each (import_step env source) rest) db db p'
                (ground arith)
              ∙ e,
          Ran-skip row rest p q db after (sym (tracked row rest p db tracks) ∙ known) ran,
        )
    | inr new ↦
        let free : has_key source row.external_id db.transactions ≡ false =
          sym (tracked row rest p db tracks) ∙ new in
        let (p', db', e', done) = insert_step-free env source row p db free in
        let (q, after, e, ran) =
          for_each-Ran rest p' db' (Tracks-insert row rest p p' db db' done tracks) in
        (
          q,
          after,
          bind-ok (import_step env source row p) (for_each (import_step env source) rest) db db' p'
                (ground (arith, e'))
              ∙ e,
          Ran-insert row rest p p' q db db' after free done ran,
        )
  ]

  -- A run over rows that are all known.
  for_each-known :
      (rows : List Incoming) (p : Progress) (db : Database)
      → ((e : String) → elem e (ids_of rows) ≡ true → elem e p.existing_ids ≡ true)
      → for_each (import_step env source) rows p db
        ≡ (ok (record p { skipped_dup = p.skipped_dup + length rows }), db)
  unfolding for_each import_step
  for_each-known [] p db known = ap (λ n. (ok (record p { skipped_dup = n }), db)) (omega arith)
  for_each-known (row ∷ rest) p db known =
      let p' = record p { skipped_dup = suc p.skipped_dup } in
      let here = known row.external_id (ground (arith, text_same row.external_id)) in
      bind-ok (import_step env source row p) (for_each (import_step env source) rest) db db p'
        (ground arith)
      ∙ for_each-known rest p' db (λ e h. known e (ground arith))
      ∙ ap (λ n. (ok (record p { skipped_dup = n }), db)) (omega arith)

  pub import_new-Ran :
      (rows : List Incoming) (db : Database)
      → (q : Progress) × (after : Database) × (import_new env source rows db ≡ (ok q, after))
        × Ran source rows
            (begin (existing_tx_external_ids source (ids_of rows) db.transactions))
            q
            db
            after
  unfolding import_new
  import_new-Ran rows db =
      for_each-Ran rows _ db (λ e h. elem-existing source (ids_of rows) e db.transactions h)

  pub import_new-again :
      (rows : List Incoming) (db : Database)
      → ((e : String) → elem e (ids_of rows) ≡ true → has_key source e db.transactions ≡ true)
      → (q : Progress) × (import_new env source rows db ≡ (ok q, db))
        × (q.inserted ≡ 0)
        × (q.skipped_dup ≡ length rows)
  unfolding import_new
  import_new-again rows db held = (
    _,
    for_each-known rows _ db
        (λ e h. elem-existing source (ids_of rows) e db.transactions h ∙ held e h),
    refl,
    omega arith,
  )
