-- ===== src/Performance/Raises.antt =====
-- Which transactions leave the owner without a report: `get_performance` against the rates of the
-- transactions in the window, and against a refresh of the rates.
use assetlog.Prelude.{
  ℕ, ◌≡◌, ◌≢◌, ◌<◌, refl, sym, ◌∙◌, String, Bool, true, false, Option, none, some, List, [], ◌∷◌,
  any, ltb, ◌==ₛ◌, ◌&&◌, not, arith, eq_iff, inl, inr, Bool-cases,
}
use assetlog.Prelude.Int.{ℤ, pos}
use assetlog.Prelude.Keyed.{Keyed}
use assetlog.Db.{Database}
use assetlog.Fx.Service.{FxStore, Adapter, supported_currencies, refresh_all}
use assetlog.Fx.Refresh.{offer}
use assetlog.Fx.Unique.{UniqueKeys}
use assetlog.Fx.TradeDate.{convert_at-refresh_all}
use assetlog.History.Rows.{
  AllTxRow, PricePoint, Price, list_all_transactions, list_price_points_for_symbols,
}
use assetlog.History.Points.{currencies_of, ids_of}
use assetlog.Performance.Flows.{Cashflow, FxAt, in_window, extract_cashflows}
use assetlog.Performance.Moments.{FlowsOf, unconverted, none_given, extract_cashflows_lem}
use assetlog.Performance.Window.{PerformancePeriod, PerformanceMethod, start_of}
use assetlog.Performance.Rates.{hour_of, fetch_all, fx_missing, fx_at_sync}
use assetlog.Performance.Mwr.{Floats}
use assetlog.Performance.Service.{
  PerformanceResponse, unique_pairs, among, is_empty, by_then, reported, of_transactions,
  get_performance,
}
use assetlog.Performance.Cached.{blocks, any-unconverted, any-among, unique_pairs-All}

none_given-FlowsOf :
    (currency : String) (fx_at : FxAt) (ws we : ℕ) (txs : List AllTxRow)
    (r : Option (List Cashflow))
    → FlowsOf currency fx_at ws we txs r
    → none_given r ≡ any (unconverted currency fx_at ws we) txs
none_given-FlowsOf currency fx_at ws we txs none h = sym h
none_given-FlowsOf currency fx_at ws we txs (some flows) h = sym h.0

none_in : (txs : List AllTxRow) (p : AllTxRow → Bool) → is_empty txs ≡ true → any p txs ≡ false
none_in [] p h = refl
none_in (tx ∷ txs) p h = cc

module _ (floats : Floats) where
  abbrev pub raised : Option (PerformanceResponse floats) → Bool
  raised none = true
  raised (some response) = false

  raised-none : (r : Option (PerformanceResponse floats)) → raised r ≡ true → r ≡ none
  raised-none none h = refl
  raised-none (some response) h = cc

  raised-reported :
      (method : PerformanceMethod) (currency : String) (start_dt end_dt : ℕ) (missing : Bool)
      (txs : List AllTxRow) (index : Keyed (List Price)) (fx_at : FxAt) (r : Option (List Cashflow))
      → raised (reported floats method currency start_dt end_dt missing txs index fx_at r)
        ≡ none_given r
  unfolding reported
  raised-reported method currency start_dt end_dt missing txs index fx_at none = refl
  raised-reported method currency start_dt end_dt missing txs index fx_at (some flows) = refl

  raised-of_transactions :
      (method : PerformanceMethod) (currency : String) (start_dt end_dt : ℕ)
      (points : List PricePoint) (fx : FxStore) (txs : List AllTxRow)
      → raised (of_transactions floats method currency start_dt end_dt points fx txs)
        ≡ any (blocks fx currency start_dt end_dt) txs
  raised-of_transactions method currency start_dt end_dt points fx txs =
      let within = among start_dt end_dt txs in
      let symbol_currency = currencies_of txs [] in
      let pairs = unique_pairs currency symbol_currency (ids_of txs) within start_dt end_dt in
      let fx_at = fx_at_sync (fetch_all fx pairs) in
      let quiet = is_empty within && not (by_then end_dt txs) in
      let all = any-among fx currency start_dt end_dt txs in
      elim (Bool-cases quiet) [
        | inl nothing ↦
            let empty : is_empty within ≡ true = ground (arith, nothing) in
            rw nothing (sym (none_in within (blocks fx currency start_dt end_dt) empty) ∙ all)
        | inr something ↦ rw something (
            raised-reported method currency start_dt end_dt (fx_missing fx pairs) txs
              (list_price_points_for_symbols (ids_of txs) start_dt points) fx_at
              (extract_cashflows within currency fx_at start_dt end_dt)
            ∙ none_given-FlowsOf currency fx_at start_dt end_dt within
                (extract_cashflows within currency fx_at start_dt end_dt)
                (extract_cashflows_lem currency fx_at start_dt end_dt within)
            ∙ any-unconverted fx currency start_dt end_dt pairs within
                (unique_pairs-All currency symbol_currency (ids_of txs) within start_dt end_dt)
            ∙ all)
      ]

  -- A report of the performance ends in FxRateNotAvailableError exactly if a transaction of the
  -- period's window has no rate to the report's currency at its hour, whatever the method.
  pub get_performance-raises :
      (period : PerformancePeriod) (method : PerformanceMethod) (currency : String) (end_dt : ℕ)
      (points : List PricePoint) (fx : FxStore) (db : Database)
      → let txs = list_all_transactions db in
        raised (get_performance floats period method currency end_dt points fx db)
        ≡ any (blocks fx currency (start_of period end_dt txs) end_dt) txs
  unfolding get_performance
  get_performance-raises period method currency end_dt points fx db =
      let txs = list_all_transactions db in
      raised-of_transactions method currency (start_of period end_dt txs) end_dt points fx txs

-- A transaction before a time, in a currency and a window.
abbrev pub traded_in : String → ℕ → ℕ → ℕ → AllTxRow → Bool
traded_in b ws we now tx = in_window ws we tx && (tx.currency ==ₛ b && ltb tx.traded_at now)

module _ (adapter : Adapter) (b currency : String) (rate : ℤ) (now : ℕ) (s : FxStore)
    (unique : UniqueKeys s) (foreign : b ≢ currency)
    (offered : offer adapter supported_currencies b currency ≡ some rate) where
  abbrev refreshed : FxStore
  refreshed = (refresh_all adapter now s).1

  traded_in-blocks :
      (ws we : ℕ) (tx : AllTxRow)
      → traded_in b ws we now tx ≡ true
      → blocks refreshed currency ws we tx ≡ true
  traded_in-blocks ws we tx h =
      let same : tx.currency ≡ b = ground (arith, h, eq_iff tx.currency b) in
      let within : in_window ws we tx ≡ true = ground (arith, h) in
      let earlier : hour_of tx.traded_at < now = ground (arith, h) in
      let none_then =
        (convert_at-refresh_all adapter b currency rate (pos 1) (hour_of tx.traded_at) now s unique
          foreign offered earlier).1 in
      rw (within, same, none_then) refl

  any-traded_in :
      (ws we : ℕ) (txs : List AllTxRow)
      → any (traded_in b ws we now) txs ≡ true
      → any (blocks refreshed currency ws we) txs ≡ true
  any-traded_in ws we [] h = h
  any-traded_in ws we (tx ∷ txs) h = elim (Bool-cases (traded_in b ws we now tx)) [
    | inl e ↦ rw (traded_in-blocks ws we tx e) refl
    | inr e ↦ elim (Bool-cases (blocks refreshed currency ws we tx)) [
      | inl f ↦ rw f refl
      | inr f ↦ rw f (any-traded_in ws we txs (rw e at h))
    ]
  ]

-- A refresh of the rates takes the report of the performance away from an owner with a foreign
-- trade: after a refresh that got a rate from a currency to the report's, no report is made for a
-- period with a transaction in that currency before the refresh, whatever rates there were before.
pub get_performance-refresh_all :
    (floats : Floats) (adapter : Adapter) (b currency : String) (rate : ℤ) (now end_dt : ℕ)
    (s : FxStore) (period : PerformancePeriod) (method : PerformanceMethod)
    (points : List PricePoint) (db : Database)
    → UniqueKeys s
    → b ≢ currency
    → offer adapter supported_currencies b currency ≡ some rate
    → let txs = list_all_transactions db in
      any (traded_in b (start_of period end_dt txs) end_dt now) txs ≡ true
      → get_performance floats period method currency end_dt points (refresh_all adapter now s).1 db
        ≡ none
get_performance-refresh_all floats adapter b currency rate now end_dt s period method points db
      unique foreign offered h =
    let txs = list_all_transactions db in
    let fx = (refresh_all adapter now s).1 in
    raised-none floats _ (
      get_performance-raises floats period method currency end_dt points fx db
      ∙ any-traded_in adapter b currency rate now s unique foreign offered
          (start_of period end_dt txs) end_dt txs h)
