-- ===== src/Cash/Sources.antt =====
-- The breakdown by source adds up to the balances by currency.
use assetlog.Prelude.{
  String, ◌≡◌, refl, sym, ap, ◌∙◌, Option, List, [], ◌∷◌, ◌==ₛ◌, if◌then◌else◌, Bool-cases, inl,
  inr,
}
use assetlog.Prelude.Int.{ℤ, pos, ◌+ℤ◌, +ℤ_assoc, int_laws}
use assetlog.Prelude.Sums.{sum_of}
use assetlog.Prelude.Dict.{Dict, lookup, insert, get_or, bump, get_or-bump, get_or-cons}
use assetlog.Db.{Database}
use assetlog.Cash.Flow.{
  source_or_manual, bump_source, bump_all_sources, net_cash_by_currency,
  net_cash_by_source_and_currency,
}
use assetlog.Cash.Totals.{total_in, ledger_total, net_cash_total}

-- `sum(by_cur.get(c, 0) for by_cur in result.values())`
unfoldable pub sum_sources : String → Dict (Dict ℤ) → ℤ
unfolding sum_of
sum_sources c result = sum_of (λ (e : String × Dict ℤ). get_or c (pos 0) e.1) result

sum_sources-cons :
    (c s : String) (v : Dict ℤ) (result : Dict (Dict ℤ))
    → sum_sources c ((s, v) ∷ result) ≡ get_or c (pos 0) v +ℤ sum_sources c result
unfolding sum_sources
sum_sources-cons c s v result = refl

sum_sources-insert :
    (c s : String) (v : Dict ℤ) (result : Dict (Dict ℤ))
    → sum_sources c (insert s v result) +ℤ get_or c (pos 0) (get_or s [] result)
      ≡ sum_sources c result +ℤ get_or c (pos 0) v
unfolding insert
sum_sources-insert c s v [] = unfold sum_sources get_or lookup in omega int_laws
sum_sources-insert c s v ((j, w) ∷ result) =
    rw (get_or-cons {V = Dict ℤ} s j [] w result, sum_sources-cons c j w result)
      (elim (Bool-cases (j ==ₛ s)) [
        | inl here ↦ rw here (rw (sum_sources-cons c j v result) (omega int_laws))
        | inr there ↦ rw there (
            rw (sum_sources-cons c j w (insert s v result)) (
              +ℤ_assoc _ _ _
              ∙ ap (λ t. get_or c (pos 0) w +ℤ t) (sum_sources-insert c s v result)
              ∙ sym (+ℤ_assoc _ _ _)))
      ])

sum_sources-bump_source :
    (c : String) (src : Option String) (ccy : String) (delta : ℤ) (result : Dict (Dict ℤ))
    → sum_sources c (bump_source src ccy delta result)
      ≡ sum_sources c result +ℤ (if ccy ==ₛ c then delta else pos 0)
unfolding bump_source
sum_sources-bump_source c src ccy delta result =
    let s = source_or_manual src in
    let inner = get_or s [] result in
    grind (
      int_laws,
      sum_sources-insert c s (bump ccy delta inner) result,
      get_or-bump ccy c delta inner,
    )

module _ {ℓ} {A : Type ℓ} (src : A → Option String) (ccy : A → String) (delta : A → ℤ) where
  sum_sources-bump_all :
      (c : String) (rows : List A) (result : Dict (Dict ℤ))
      → sum_sources c (bump_all_sources src ccy delta rows result)
        ≡ sum_sources c result +ℤ total_in ccy delta c rows
  unfolding bump_all_sources sum_of
  sum_sources-bump_all c [] result = omega int_laws
  sum_sources-bump_all c (r ∷ rest) result =
      rw
        (
          sum_sources-bump_all c rest (bump_source (src r) (ccy r) (delta r) result),
          sum_sources-bump_source c (src r) (ccy r) (delta r) result,
        )
        (omega int_laws)

sum_sources_total :
    (c : String) (db : Database)
    → sum_sources c (net_cash_by_source_and_currency db) ≡ ledger_total c db
unfolding net_cash_by_source_and_currency
sum_sources_total c db = simp sum_sources-bump_all (unfold sum_sources in omega int_laws)

-- The balances of all sources in a currency add up to the balance of that currency.
pub sources-add_up :
    (c : String) (db : Database)
    → sum_sources c (net_cash_by_source_and_currency db)
      ≡ get_or c (pos 0) (net_cash_by_currency db)
sources-add_up c db = sum_sources_total c db ∙ sym (net_cash_total c db)
