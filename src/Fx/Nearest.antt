-- ===== src/Fx/Nearest.antt =====
-- The batch query against one query per timestamp.
use assetlog.Prelude.{
  ℕ, String, Bool, ◌≡◌, ◌≢◌, refl, ap, ◌∙◌, sym, Option, none, some, List, [], ◌∷◌, ◌≤◌, All, leb,
  filter, get_elem?, arith, if◌then◌else◌,
}
use assetlog.Prelude.Sorting.{sort, insert_sorted, by_key, All-sort, Ascending, sort_by-Ascending}
use assetlog.Prelude.Table.{DistinctIds, DistinctIds-filter}
use assetlog.Fx.Snapshots.{
  FxRateSnapshot, of_pair, time_of, newest_first, up_to, get_rate_at, nearest_past,
}

-- The newer of a snapshot and another, if there is another.
abbrev newer : FxRateSnapshot → Option FxRateSnapshot → Option FxRateSnapshot
newer s none = some s
newer s (some m) = if leb s.recorded_at m.recorded_at then some m else some s

-- The newest of the snapshots that are not later than a time.
latest : ℕ → List FxRateSnapshot → Option FxRateSnapshot
latest at [] = none
latest at (s ∷ snaps) =
    let rest = latest at snaps in if leb s.recorded_at at then newer s rest else rest

newest : List FxRateSnapshot → Option FxRateSnapshot
newest [] = none
newest (s ∷ snaps) = newer s (newest snaps)

-- Both sorts put an item where the newest does not see it.
newer_comm :
    (s y : FxRateSnapshot) (m : Option FxRateSnapshot)
    → y.recorded_at ≢ s.recorded_at
    → newer y (newer s m) ≡ newer s (newer y m)
newer_comm s y none h = ground (arith, h)
newer_comm s y (some m) h = ground (arith, h)

latest-insert_sorted :
    (at : ℕ) (le : FxRateSnapshot → FxRateSnapshot → Bool) (s : FxRateSnapshot)
    (ys : List FxRateSnapshot)
    → All (λ y. y.recorded_at ≢ s.recorded_at) ys
    → latest at (insert_sorted le s ys) ≡ latest at (s ∷ ys)
unfolding latest insert_sorted
latest-insert_sorted at le s [] h = refl
latest-insert_sorted at le s (y ∷ ys) h =
    ground (arith, latest-insert_sorted at le s ys h.1, newer_comm s y (latest at ys) h.0)

latest-sort :
    (at : ℕ) (le : FxRateSnapshot → FxRateSnapshot → Bool) (snaps : List FxRateSnapshot)
    → DistinctIds time_of snaps
    → latest at (sort le snaps) ≡ latest at snaps
unfolding latest sort
latest-sort at le [] d = refl
latest-sort at le (s ∷ snaps) d =
    latest-insert_sorted at le s (sort le snaps) (All-sort _ le snaps d.0)
    ∙ ground (arith, latest-sort at le snaps d.1)

first-insert_sorted :
    (s : FxRateSnapshot) (ys : List FxRateSnapshot)
    → All (λ y. y.recorded_at ≢ s.recorded_at) ys
    → get_elem? (insert_sorted newest_first s ys) 0 ≡ newer s (get_elem? ys 0)
unfolding insert_sorted
first-insert_sorted s [] h = refl
first-insert_sorted s (y ∷ ys) h = ground (arith, h.0)

-- The query for one timestamp takes the newest.
first-sort :
    (snaps : List FxRateSnapshot)
    → DistinctIds time_of snaps
    → get_elem? (sort newest_first snaps) 0 ≡ newest snaps
unfolding newest sort
first-sort [] d = refl
first-sort (s ∷ snaps) d =
    first-insert_sorted s (sort newest_first snaps) (All-sort _ newest_first snaps d.0)
    ∙ ap (newer s) (first-sort snaps d.1)

latest-up_to :
    (b q : String) (at last : ℕ) (rows : List FxRateSnapshot)
    → at ≤ last
    → latest at (up_to b q last rows) ≡ newest (up_to b q at rows)
unfolding latest newest filter
latest-up_to b q at last [] h = refl
latest-up_to b q at last (s ∷ rows) h = ground (arith, latest-up_to b q at last rows h)

-- In ascending order the scan of the batch finds the newest.
abbrev or_found : Option FxRateSnapshot → Option FxRateSnapshot → Option FxRateSnapshot
or_found none found = found
or_found (some m) found = some m

none_later :
    (at n : ℕ) (snaps : List FxRateSnapshot)
    → at ≤ n
    → n ≢ at
    → All (λ y. n ≤ y.recorded_at) snaps
    → latest at snaps ≡ none
unfolding latest
none_later at n [] le ne h = refl
none_later at n (s ∷ snaps) le ne h = ground (arith, h.0, none_later at n snaps le ne h.1)

newer_ascending :
    (at : ℕ) (s : FxRateSnapshot) (snaps : List FxRateSnapshot)
    → All (λ y. s.recorded_at ≤ y.recorded_at) snaps
    → newer s (latest at snaps) ≡ or_found (latest at snaps) (some s)
unfolding latest
newer_ascending at s [] h = refl
newer_ascending at s (y ∷ snaps) h = ground (arith, h.0, newer_ascending at s snaps h.1)

nearest_past-latest :
    (at : ℕ) (found : Option FxRateSnapshot) (snaps : List FxRateSnapshot)
    → Ascending time_of snaps
    → nearest_past at found snaps ≡ or_found (latest at snaps) found
unfolding nearest_past latest
nearest_past-latest at found [] h = refl
nearest_past-latest at found (s ∷ snaps) h = ground (
  arith,
  nearest_past-latest at (some s) snaps h.1,
  newer_ascending at s snaps h.0,
  none_later at s.recorded_at snaps,
)

up_to-filter :
    (b q : String) (at : ℕ) (rows : List FxRateSnapshot)
    → up_to b q at rows ≡ filter (λ s. leb s.recorded_at at) (filter (of_pair b q) rows)
unfolding filter
up_to-filter b q at [] = refl
up_to-filter b q at (s ∷ rows) = ground (arith, up_to-filter b q at rows)

up_to-DistinctIds :
    (b q : String) (at : ℕ) (rows : List FxRateSnapshot)
    → DistinctIds time_of (filter (of_pair b q) rows)
    → DistinctIds time_of (up_to b q at rows)
up_to-DistinctIds b q at rows d =
    rw (up_to-filter b q at rows) (DistinctIds-filter time_of _ (filter (of_pair b q) rows) d)

or_found-none : (m : Option FxRateSnapshot) → or_found m none ≡ m
or_found-none none = refl
or_found-none (some m) = refl

-- For a time up to the last that is asked for, the scan gives what the query for that time gives.
pub nearest_past-get_rate_at :
    (b q : String) (at last : ℕ) (rows : List FxRateSnapshot)
    → DistinctIds time_of (filter (of_pair b q) rows)
    → at ≤ last
    → nearest_past at none (sort (by_key time_of) (up_to b q last rows)) ≡ get_rate_at b q at rows
unfolding get_rate_at filter sort
nearest_past-get_rate_at b q at last rows d h =
    let snaps = up_to b q last rows in
    nearest_past-latest at none (sort (by_key time_of) snaps) (sort_by-Ascending time_of snaps)
    ∙ or_found-none (latest at (sort (by_key time_of) snaps))
    ∙ latest-sort at (by_key time_of) snaps (up_to-DistinctIds b q last rows d)
    ∙ latest-up_to b q at last rows h
    ∙ sym (first-sort (up_to b q at rows) (up_to-DistinctIds b q at rows d))
