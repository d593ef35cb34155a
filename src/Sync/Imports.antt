-- ===== src/Sync/Imports.antt =====
-- `import_trades`, as a whole.
use assetlog.Prelude.{
  ◌+◌, String, ◌||◌, ◌≡◌, refl, sym, ◌∙◌, true, List, [], ◌∷◌, ◌++◌, map, length, arith, length-map,
}
use mathlib.Core.List.{append-nil}
use assetlog.Db.{Database, Transaction, ok, bind-ok}
use assetlog.Sync.Records.{ExchangeSource, value, ExternalTrade, SyncResult}
use assetlog.Sync.Symbols.{Resolvers}
use assetlog.Sync.Trades.{
  Incoming, Progress, of_external, elem, has_key, ids_of, import_new, import_trades, sync_result,
}
use assetlog.Sync.Lookup.{UniqueKeys}
use assetlog.Sync.Dedup.{import_new-Ran, import_new-again}

abbrev pub incoming : ExchangeSource → List ExternalTrade → List Incoming
incoming source trades = map (of_external source) trades

module _ (env : Resolvers) (source : ExchangeSource) where
  -- What an import comes to.
  record Imported (trades : List ExternalTrade) (db : Database) (r : SyncResult) (after : Database)
      : Type 0 where
    ends : import_trades env source trades db ≡ (ok r, after)
    new : List Transaction
    appended : after.transactions ≡ db.transactions ++ new
    inserted : r.inserted ≡ length new
    fetched : r.fetched ≡ length trades
    no_symbol : r.skipped_no_symbol ≡ 0
    counted : r.inserted + r.skipped_duplicate ≡ r.fetched
    keyed :
        (e : String)
        → has_key (value source) e after.transactions
          ≡ (has_key (value source) e db.transactions || elem e (ids_of (incoming source trades)))
    unique : UniqueKeys db.transactions → UniqueKeys after.transactions

  import_trades-Imported :
      (trades : List ExternalTrade) (db : Database)
      → (r : SyncResult) × (after : Database) × Imported trades db r after
  unfolding import_trades
  import_trades-Imported [] db = (
    sync_result 0 0 0,
    db,
    record {
      ends = refl;
      new = [];
      appended = sym (append-nil db.transactions);
      inserted = refl;
      fetched = refl;
      no_symbol = refl;
      counted = refl;
      keyed = λ e. ground arith;
      unique = λ u. u;
    },
  )
  import_trades-Imported (t ∷ rest) db =
      let rows = incoming source (t ∷ rest) in
      let (q, after, e, ran) = import_new-Ran env (value source) rows db in
      let finish = λ (p : Progress). sync_result (length (t ∷ rest)) p.inserted p.skipped_dup in
      (
        finish q,
        after,
        record {
          ends =
              bind-ok (import_new env (value source) rows) (λ p db'. (ok (finish p), db')) db after
                q e;
          new = ran.new;
          appended = ran.appended;
          inserted = omega (arith, ran.counted);
          fetched = refl;
          no_symbol = refl;
          counted = omega (arith, ran.all_seen, length-map (of_external source) rest);
          keyed = ran.keyed;
          unique = ran.unique;
        },
      )

  -- On a table in which no key comes twice, an import succeeds whatever rows it is given, repeated and
  -- known ids among them: no key is taken when it adds a row. Its counts add up to what was fetched, the
  -- new rows stand after the old ones and are as many as it reports, afterwards the source's keys are the
  -- old and the given, and still no key comes twice.
  pub import_trades_complete :
      (trades : List ExternalTrade) (db : Database)
      → UniqueKeys db.transactions
      → let (out, after) = import_trades env source trades db in
        (r : SyncResult) × (new : List Transaction) × (out ≡ ok r)
        × (after.transactions ≡ db.transactions ++ new)
        × (r.inserted ≡ length new)
        × (r.fetched ≡ length trades)
        × (r.inserted + r.skipped_duplicate ≡ r.fetched)
        × ((e : String)
            → has_key (value source) e after.transactions ≡ (
                has_key (value source) e db.transactions
                || elem e (ids_of (incoming source trades))))
        × UniqueKeys after.transactions
  import_trades_complete trades db u =
      let (r, after, done) = import_trades-Imported trades db in
      rw done.ends (
        r,
        done.new,
        refl,
        done.appended,
        done.inserted,
        done.fetched,
        done.counted,
        done.keyed,
        done.unique u,
      )

  import_trades_held :
      (trades : List ExternalTrade) (db : Database)
      → ((e : String)
          → elem e (ids_of (incoming source trades)) ≡ true
          → has_key (value source) e db.transactions ≡ true)
      → import_trades env source trades db
        ≡ (ok (sync_result (length trades) 0 (length trades)), db)
  unfolding import_trades
  import_trades_held [] db held = refl
  import_trades_held (t ∷ rest) db held =
      let rows = incoming source (t ∷ rest) in
      let finish = λ (p : Progress). sync_result (length (t ∷ rest)) p.inserted p.skipped_dup in
      let (q, e, i, s) = import_new-again env (value source) rows db held in
      let all : length rows ≡ length (t ∷ rest) = length-map (of_external source) (t ∷ rest) in
      bind-ok (import_new env (value source) rows) (λ p db'. (ok (finish p), db')) db db q e
      ∙ rw (i, s, all) refl

  -- The same import once more inserts nothing, skips every row and changes nothing.
  pub import_trades-again :
      (trades : List ExternalTrade) (db : Database)
      → let after = (import_trades env source trades db).1 in
        import_trades env source trades after
        ≡ (ok (sync_result (length trades) 0 (length trades)), after)
  import_trades-again trades db =
      let (r, after, done) = import_trades-Imported trades db in
      rw done.ends (import_trades_held trades after (λ id h. done.keyed id ∙ ground (arith, h)))
