-- ===== src/Risk/Closes.antt =====
-- The single pass over a benchmark's closes against a search for each timestamp by itself.
use assetlog.Prelude.{
  ℕ, ◌≤◌, ◌≡◌, refl, ap, ◌∙◌, true, Option, none, some, List, [], ◌∷◌, All, map, leb, arith, inl,
  inr, Bool-cases, if◌then◌else◌,
}
use assetlog.Prelude.Int.{ℤ}
use assetlog.Prelude.Sorting.{Ascending, sort, sort_by-Ascending}
use assetlog.History.Rows.{Price, by_time}
use assetlog.History.Pointer.{when, last_until, none_until}
use assetlog.Performance.Service.{is_empty}
use assetlog.Risk.Benchmark.{
  closes_until, close_or_zero, closes_at, to_cumulative_returns, benchmark_to_returns,
}

abbrev or_last : Option Price → Option Price → Option Price
or_last last none = last
or_last last (some p) = some p

or_last-next :
    (last later : Option Price) (h : Price)
    → or_last (some h) later ≡ or_last last (elim later [ none ↦ some h | some l ↦ some l ])
or_last-next last none h = refl
or_last-next last (some l) h = refl

module _ (ts : ℕ) where
  -- Up to the time the last close of the list, or the one before it; and for the later times what is
  -- left serves as the whole list.
  closes_until_lem :
      (last : Option Price) (hist : List Price)
      → Ascending when hist
      → let out = closes_until ts last hist in
        (out.0 ≡ or_last last (last_until ts hist))
        × Ascending when out.1
        × ((t : ℕ) → ts ≤ t → or_last out.0 (last_until t out.1) ≡ or_last last (last_until t hist))
  unfolding closes_until last_until
  closes_until_lem last [] up = (refl, tt, λ t le. refl)
  closes_until_lem last (h ∷ hist) up = elim (Bool-cases (leb h.at ts)) [
    | inl in_time ↦
        let (close, left, later) = closes_until_lem (some h) hist up.1 in
        rw in_time (
          close ∙ or_last-next last (last_until ts hist) h,
          left,
          λ t le.
              let still : leb h.at t ≡ true = ground (arith, le, in_time) in
              rw still (later t le ∙ or_last-next last (last_until t hist) h),
        )
    | inr late ↦
        let nothing = none_until ts h.at hist (ground arith) up.0 in
        rw (late, nothing) (refl, up, λ t le. refl)
  ]

abbrev pub close_at : Option Price → List Price → ℕ → ℕ × ℤ
close_at last hist ts = (ts, close_or_zero (or_last last (last_until ts hist)))

later_closes :
    (ts : ℕ) (last close : Option Price) (hist left : List Price) (timestamps : List ℕ)
    → ((t : ℕ) → ts ≤ t → or_last close (last_until t left) ≡ or_last last (last_until t hist))
    → All (λ t. ts ≤ t) timestamps
    → map (close_at close left) timestamps ≡ map (close_at last hist) timestamps
later_closes ts last close hist left [] same le = refl
later_closes ts last close hist left (t ∷ timestamps) same le = rw (same t le.0) (
    ap (λ rest. close_at last hist t ∷ rest)
      (later_closes ts last close hist left timestamps same le.1))

closes_at_lem :
    (last : Option Price) (hist : List Price) (timestamps : List ℕ)
    → Ascending when hist
    → Ascending (λ t. t) timestamps
    → closes_at last hist timestamps ≡ map (close_at last hist) timestamps
unfolding closes_at
closes_at_lem last hist [] up times = refl
closes_at_lem last hist (ts ∷ timestamps) up times =
    let (close, left, later) = closes_until_lem ts last hist up in
    let out = closes_until ts last hist in
    let rest = closes_at_lem out.0 out.1 timestamps left times.1 in
    ap (λ c. (ts, close_or_zero c) ∷ closes_at out.0 out.1 timestamps) close
    ∙ ap (λ l. close_at last hist ts ∷ l)
        (rest ∙ later_closes ts last out.0 hist out.1 timestamps later times.0)

-- For timestamps in the order of time, the returns of a benchmark are those of its last close up to
-- each timestamp, which the one pass over its closes finds as a search of all of them does; a
-- timestamp before the first close counts as zero.
pub benchmark_to_returns-each_time :
    (history : List Price) (timestamps : List ℕ)
    → Ascending (λ t. t) timestamps
    → benchmark_to_returns history timestamps ≡ (
        if is_empty history
        then []
        else to_cumulative_returns (map (close_at none (sort by_time history)) timestamps))
unfolding benchmark_to_returns
benchmark_to_returns-each_time history timestamps times =
    ap (λ samples. if is_empty history then [] else to_cumulative_returns samples)
      (closes_at_lem none (sort by_time history) timestamps (sort_by-Ascending when history) times)
