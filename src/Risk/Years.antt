-- ===== src/Risk/Years.antt =====
-- The compound return of each year of the heatmap, from that year's months alone.
use mathlib.Core.List.{append_assoc}
use assetlog.Prelude.{
  ℕ, ◌≡◌, refl, ap, ◌∙◌, sym, Bool, true, false, Option, none, some, List, [], ◌∷◌, ◌++◌, map, any,
  append-nil, ◌==◌, ◌&&◌, ◌||◌, arith, inl, inr, Bool-cases, if◌then◌else◌,
}
use assetlog.Prelude.Keyed.{Keyed, at_key, at_key_or, set_key, at_key-set_key, at_key_or-set_key}
use assetlog.Performance.Twr.{Ratio}
use assetlog.Risk.Growth.{growth_less_one, year_return_lem}
use assetlog.Risk.Heatmap.{
  MonthlyReturn, Years, add_return, group_years, year_return, yearly_compound,
}

abbrev pub of_year : ℕ → MonthlyReturn → Bool
of_year year m = m.year == year

-- The returns of a year's months, in their order.
abbrev add_first : Option Ratio → List Ratio → List Ratio
add_first none rest = rest
add_first (some r) rest = r ∷ rest

unfoldable pub returns_in : ℕ → List MonthlyReturn → List Ratio
returns_in year [] = []
returns_in year (m ∷ months) =
    let rest = returns_in year months in
    if of_year year m then add_first m.return_pct rest else rest

abbrev is_gap : Option Ratio → Bool
is_gap none = true
is_gap (some r) = false

-- A month of the year that has no return.
abbrev pub gap_in : ℕ → MonthlyReturn → Bool
gap_in year m = of_year year m && is_gap m.return_pct

or_move : (a g x : Bool) → (a || (g || x)) ≡ ((if g then true else a) || x)
or_move true true x = refl
or_move true false x = refl
or_move false true x = refl
or_move false false x = refl

nulls-add_return :
    (year k : ℕ) (o : Option Ratio) (s : Years)
    → at_key_or year false (add_return k o s).nulls_by_year
      ≡ ((k == year && is_gap o) || at_key_or year false s.nulls_by_year)
nulls-add_return year k none s =
    at_key_or-set_key k year true false s.nulls_by_year ∙ gap_or (k == year) _
  where
    gap_or : (b x : Bool) → (if b then true else x) ≡ ((b && true) || x)
    gap_or true x = refl
    gap_or false x = refl
nulls-add_return year k (some r) s = sym (no_gap (k == year) _)
  where
    no_gap : (b x : Bool) → ((b && false) || x) ≡ x
    no_gap true x = refl
    no_gap false x = refl

nulls-group_years :
    (year : ℕ) (months : List MonthlyReturn) (s : Years)
    → at_key_or year false (group_years months s).nulls_by_year
      ≡ (any (gap_in year) months || at_key_or year false s.nulls_by_year)
unfolding group_years
nulls-group_years year [] s = refl
nulls-group_years year (m ∷ months) s =
    nulls-group_years year months (add_return m.year m.return_pct s)
    ∙ ap (λ b. any (gap_in year) months || b) (nulls-add_return year m.year m.return_pct s)
    ∙ or_move (any (gap_in year) months) (gap_in year m) (at_key_or year false s.nulls_by_year)

-- What a month adds to the returns of a year.
module _ (year k : ℕ) (a : List Ratio) (d : Keyed (List Ratio)) where
  abbrev written : List Ratio
  written = at_key_or year [] d ++ (if k == year then a else [])

  set_key-written :
      (v : List Ratio)
      → v ≡ at_key_or k [] d ++ a
      → (at_key year (set_key k v d) ≡ (if k == year then some written else at_key year d))
        × (at_key_or year [] (set_key k v d) ≡ written)
  set_key-written v e = elim (Bool-cases (k == year)) [
    | inl here ↦
        let same : k ≡ year = ground (arith, here) in
        let new : v ≡ at_key_or year [] d ++ a = e ∙ ap (λ j. at_key_or j [] d ++ a) same in
        (
          at_key-set_key k year v d ∙ rw here (ap some new),
          at_key_or-set_key k year v [] d ∙ rw here new,
        )
    | inr other ↦ (
      at_key-set_key k year v d ∙ rw other refl,
      at_key_or-set_key k year v [] d ∙ rw other (sym (append-nil (at_key_or year [] d))),
    )
  ]

rates-add_return :
    (year k : ℕ) (o : Option Ratio) (s : Years)
    → let now = written year k (add_first o []) s.by_year in
      (at_key year (add_return k o s).by_year
        ≡ (if k == year then some now else at_key year s.by_year))
      × (at_key_or year [] (add_return k o s).by_year ≡ now)
rates-add_return year k none s =
    set_key-written year k [] s.by_year (at_key_or k [] s.by_year)
      (sym (append-nil (at_key_or k [] s.by_year)))
rates-add_return year k (some r) s =
    set_key-written year k (r ∷ []) s.by_year (at_key_or k [] s.by_year ++ r ∷ []) refl

returns_none :
    (year : ℕ) (months : List MonthlyReturn)
    → any (of_year year) months ≡ false
    → returns_in year months ≡ []
unfolding returns_in
returns_none year [] h = refl
returns_none year (m ∷ months) h = elim (Bool-cases (of_year year m)) [
  | inl here ↦ cc (rw here at h)
  | inr other ↦ rw other (returns_none year months (rw other at h))
]

first_append :
    (o : Option Ratio) (old rest : List Ratio)
    → (old ++ add_first o []) ++ rest ≡ old ++ add_first o rest
first_append o old rest = append_assoc old (add_first o []) rest ∙ ap (λ l. old ++ l) (joined o)
  where
    joined : (q : Option Ratio) → add_first q [] ++ rest ≡ add_first q rest
    joined none = refl
    joined (some r) = refl

rates-group_years :
    (year : ℕ) (months : List MonthlyReturn) (s : Years)
    → at_key year (group_years months s).by_year ≡ (
        if any (of_year year) months
        then some (at_key_or year [] s.by_year ++ returns_in year months)
        else at_key year s.by_year)
unfolding group_years returns_in
rates-group_years year [] s = refl
rates-group_years year (m ∷ months) s =
    let o = m.return_pct in
    let old = at_key_or year [] s.by_year in
    let rest = returns_in year months in
    let s' = add_return m.year o s in
    let (found, list) = rates-add_return year m.year o s in
    let on = rates-group_years year months s' in
    elim (Bool-cases (of_year year m)) [
      | inl here ↦
          let list' : at_key_or year [] s'.by_year ≡ old ++ add_first o [] = list ∙ rw here refl in
          let found' : at_key year s'.by_year ≡ some (old ++ add_first o []) =
            found ∙ rw here refl in
          elim (Bool-cases (any (of_year year) months)) [
            | inl more ↦
                rw here
                  (on ∙ rw more (ap some (ap (λ l. l ++ rest) list' ∙ first_append o old rest)))
            | inr done ↦
                let nothing = returns_none year months done in
                rw here (on ∙ rw (done, nothing) found')
          ]
      | inr other ↦
          let list' : at_key_or year [] s'.by_year ≡ old = list ∙ rw other (append-nil old) in
          let found' : at_key year s'.by_year ≡ at_key year s.by_year = found ∙ rw other refl in
          rw other (
            on
            ∙ ap
                (λ l.
                  if any (of_year year) months then some (l ++ rest) else at_key year s'.by_year)
                list'
            ∙ ap (λ f. if any (of_year year) months then some (old ++ rest) else f) found')
    ]

or_false : (b : Bool) → (b || false) ≡ b
or_false true = refl
or_false false = refl

pushed :
    (b gap : Bool) (returns : List Ratio)
    → (elim (if b then some returns else none) [
      | none ↦ none
      | some rs ↦ some (year_return gap rs)
    ])
      ≡ (if b then some (year_return gap returns) else none)
pushed true gap returns = refl
pushed false gap returns = refl

at_key-map :
    (year : ℕ) (f : ℕ → List Ratio → Option Ratio) (d : Keyed (List Ratio))
    → at_key year (map (λ (k, rs). (k, f k rs)) d)
      ≡ (elim (at_key year d) [ none ↦ none | some rs ↦ some (f year rs) ])
unfolding at_key
at_key-map year f [] = refl
at_key-map year f ((k, rs) ∷ d) = elim (Bool-cases (k == year)) [
  | inl here ↦ let same : k ≡ year = ground (arith, here) in rw (here, same) refl
  | inr other ↦ rw other (at_key-map year f d)
]

-- A year is in the heatmap exactly if one of its months is there. It has no return if a month of the
-- year has none, and else the product of 1 + r over the returns r of the year's months, less 1. The
-- months of other years do not count, wherever they stand.
pub yearly_compound_lem :
    (year : ℕ) (months : List MonthlyReturn)
    → at_key year (yearly_compound months) ≡ (
        if any (of_year year) months
        then some (
            if any (gap_in year) months
            then none
            else some (growth_less_one (returns_in year months)))
        else none)
unfolding yearly_compound at_key at_key_or
yearly_compound_lem year months =
    let start : Years = record { by_year = []; nulls_by_year = [] } in
    let years = group_years months start in
    let b = any (of_year year) months in
    let returns = returns_in year months in
    let gap = any (gap_in year) months in
    let nulls = nulls-group_years year months start ∙ or_false gap in
    let rates = rates-group_years year months start in
    at_key-map year (λ y rs. year_return (at_key_or y false years.nulls_by_year) rs) years.by_year
    ∙ rw rates (
        pushed b (at_key_or year false years.nulls_by_year) returns
        ∙ ap (λ g. if b then some (year_return g returns) else none) nulls
        ∙ ap (λ ret. if b then some ret else none) (year_return_lem gap returns))
