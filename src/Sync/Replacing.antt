-- ===== src/Sync/Replacing.antt =====
-- `replace_trades`, as a whole.
use assetlog.Prelude.{
  ◌+◌, String, ◌||◌, ◌≡◌, refl, sym, ap, ◌∙◌, true, false, List, [], ◌∷◌, ◌++◌, map, filter, length,
  arith, length-map, eq_iff, ◌==ₛ◌, inl, inr, Bool-cases,
}
use mathlib.Core.List.{append-nil}
use assetlog.Db.{Database, Transaction, ok, bind-ok}
use assetlog.Sync.Records.{ExchangeSource, value, ExternalTrade}
use assetlog.Sync.Symbols.{Resolvers}
use assetlog.Sync.Trades.{
  Incoming, Progress, begin, of_external, elem, has_key, ids_of, of_other_source, insert_step,
  for_each, replace_trades, sync_result,
}
use assetlog.Sync.Steps.{Inserted, insert_step-free}
use assetlog.Sync.Lookup.{has_key-append}
use assetlog.Sync.Dedup.{Ran, Ran-insert}

-- No id comes twice.
abbrev pub NoRepeat : List String → Type 0
NoRepeat [] = Unit
NoRepeat (e ∷ ids) = (elem e ids ≡ false) × NoRepeat ids

module _ (source : String) where
  no_key_left :
      (e : String) (rows : List Transaction)
      → has_key source e (filter (of_other_source source) rows) ≡ false
  unfolding filter
  no_key_left e [] = refl
  no_key_left e (tx ∷ rows) = ground (arith, no_key_left e rows)

  abbrev Fresh : List Incoming → Database → Type 0
  Fresh rows db =
      (e : String) → elem e (ids_of rows) ≡ true → has_key source e db.transactions ≡ false

  Fresh-rest :
      (row : Incoming) (rest : List Incoming) (p q : Progress) (db after : Database)
      → Inserted source row p q db after
      → elem row.external_id (ids_of rest) ≡ false
      → Fresh (row ∷ rest) db
      → Fresh rest after
  Fresh-rest row rest p q db after done once fresh e h =
      rw (done.rows, has_key-append source e db.transactions row done.asset_id db.next_transaction)
        (elim (Bool-cases (row.external_id ==ₛ e)) [
          | inl same ↦
              let twice : elem e (ids_of rest) ≡ false =
                rw (← (eq_iff row.external_id e).0 same) once in
              absurd (ground arith)
          | inr other ↦ ground (arith, fresh e)
        ])

module _ (env : Resolvers) (source : String) where
  for_each-insert :
      (rows : List Incoming) (p : Progress) (db : Database)
      → NoRepeat (ids_of rows)
      → Fresh source rows db
      → (q : Progress) × (after : Database) × (for_each (insert_step env source) rows p db
          ≡ (ok q, after))
        × (q.inserted ≡ p.inserted + length rows)
        × ((q.skipped_dup ≡ p.skipped_dup) × Ran source rows p q db after)
  unfolding for_each
  for_each-insert [] p db once fresh = (
    p,
    db,
    refl,
    omega arith,
    (
      refl,
      record {
        new = [];
        appended = sym (append-nil db.transactions);
        counted = omega arith;
        all_seen = omega arith;
        keyed = λ e. ground arith;
        unique = λ u. u;
      },
    ),
  )
  for_each-insert (row ∷ rest) p db once fresh =
      let free : has_key source row.external_id db.transactions ≡ false =
        fresh row.external_id (ground (arith, (eq_iff row.external_id row.external_id).1 refl)) in
      let (p', db', e', done) = insert_step-free env source row p db free in
      let (q, after, e, count, (skipped, ran)) =
        for_each-insert rest p' db' once.1
          (Fresh-rest source row rest p p' db db' done once.0 fresh) in
      (
        q,
        after,
        bind-ok (insert_step env source row p) (for_each (insert_step env source) rest) db db' p' e'
            ∙ e,
        omega (arith, count, done.inserted),
        (skipped ∙ done.skipped, Ran-insert env source row rest p p' q db db' after free done ran),
      )

module _ (env : Resolvers) (source : ExchangeSource) where
  abbrev deleted : Database → Database
  deleted db = record db { transactions = filter (of_other_source (value source)) db.transactions }

  replace_trades-eq :
      (trades : List ExternalTrade) (db after : Database) (q : Progress)
      → for_each
          (insert_step env (value source))
          (map (of_external source) trades)
          (begin [])
          (deleted db)
        ≡ (ok q, after)
      → replace_trades env source trades db ≡ (ok (sync_result (length trades) q.inserted 0), after)
  unfolding replace_trades
  replace_trades-eq trades db after q e =
      bind-ok
        (for_each (insert_step env (value source)) (map (of_external source) trades) (begin []))
        (λ p db'. (ok (sync_result (length trades) p.inserted 0), db')) (deleted db) after q e

  -- If no id comes twice, a replacement ends well whatever the source had before: the rows of other
  -- sources and those without a source stand as they were, before as many new ones as were given,
  -- and the source's keys are the given ones.
  pub replace_trades_complete :
      (trades : List ExternalTrade) (db : Database)
      → NoRepeat (ids_of (map (of_external source) trades))
      → let (out, after) = replace_trades env source trades db in
        (new : List Transaction) × (out ≡ ok (sync_result (length trades) (length trades) 0))
        × (after.transactions ≡ filter (of_other_source (value source)) db.transactions ++ new)
        × (length new ≡ length trades)
        × ((e : String)
            → has_key (value source) e after.transactions
              ≡ elem e (ids_of (map (of_external source) trades)))
  replace_trades_complete trades db once =
      let rows = map (of_external source) trades in
      let (q, after, e, count, (skipped, ran)) =
        for_each-insert env (value source) rows (begin []) (deleted db) once
          (λ id h. no_key_left (value source) id db.transactions) in
      let all : length rows ≡ length trades = length-map (of_external source) trades in
      rw (replace_trades-eq trades db after q e) (
        ran.new,
        ap (λ n. ok (sync_result (length trades) n 0)) (omega arith),
        ran.appended,
        omega (arith, ran.counted),
        λ id.
            ran.keyed id
            ∙ ap (λ b. b || elem id (ids_of rows)) (no_key_left (value source) id db.transactions),
      )
