-- ===== src/Fx/Batch.antt =====
-- The rates at many timestamps.
use assetlog.Prelude.{
  ℕ, String, Bool, true, ◌≡◌, refl, ◌∙◌, Option, none, some, List, [], ◌∷◌, ◌≤◌, map, any, filter,
  arith, inl, inr, Bool-cases, ◌==◌, ◌==ₛ◌, if◌then◌else◌,
}
use assetlog.Prelude.Int.{ℤ}
use assetlog.Prelude.Sorting.{sort, by_key}
use assetlog.Prelude.Keyed.{Keyed, at_key, set_key, at_key-set_key}
use assetlog.Prelude.Table.{DistinctIds}
use assetlog.Fx.Snapshots.{
  FxRateSnapshot, of_pair, time_of, up_to, get_rate_at, nearest_past, max_of, resolve_all,
  get_rates_at_batch,
}
use assetlog.Fx.Service.{FxStore, one, ones, rate_of, get_historical_rates_at}
use assetlog.Fx.Unique.{UniqueKeys}
use assetlog.Fx.Nearest.{nearest_past-get_rate_at}

abbrev pub asked : ℕ → List ℕ → Bool
asked k ats = any (λ at. at == k) ats

at_key-ones :
    (k : ℕ) (ats : List ℕ) (d : Keyed (Option ℤ))
    → at_key k (ones ats d) ≡ (if asked k ats then some (some one) else at_key k d)
at_key-ones k [] d = refl
at_key-ones k (at ∷ ats) d =
    ground (arith, at_key-ones k ats (set_key at (some one) d), at_key-set_key at k (some one) d)

at_key-resolve_all :
    (k : ℕ) (snaps : List FxRateSnapshot) (ats : List ℕ) (d : Keyed (Option FxRateSnapshot))
    → at_key k (resolve_all snaps ats d)
      ≡ (if asked k ats then some (nearest_past k none snaps) else at_key k d)
unfolding resolve_all
at_key-resolve_all k snaps [] d = refl
at_key-resolve_all k snaps (at ∷ ats) d =
    let found = nearest_past at none snaps in
    ground (arith, at_key-resolve_all k snaps ats (set_key at found d), at_key-set_key at k found d)

asked_le : (k a : ℕ) (ats : List ℕ) → asked k (a ∷ ats) ≡ true → k ≤ max_of a ats
asked_le k a [] h = ground arith
asked_le k a (b ∷ ats) h = ground (arith, asked_le k b ats)

at_key-map :
    (k : ℕ) (d : Keyed (Option FxRateSnapshot))
    → at_key k (map (λ (ts, snap). (ts, rate_of snap)) d)
      ≡ elim (at_key k d) [ none ↦ none | some snap ↦ some (rate_of snap) ]
unfolding at_key
at_key-map k [] = refl
at_key-map k ((j, v) ∷ d) = ground (arith, at_key-map k d)

at_key-get_rates_at_batch :
    (b q : String) (k : ℕ) (ats : List ℕ) (rows : List FxRateSnapshot)
    → DistinctIds time_of (filter (of_pair b q) rows)
    → at_key k (get_rates_at_batch b q ats rows)
      ≡ (if asked k ats then some (get_rate_at b q k rows) else none)
unfolding get_rates_at_batch at_key
at_key-get_rates_at_batch b q k [] rows d = refl
at_key-get_rates_at_batch b q k (a ∷ ats) rows d =
    let snaps = sort (by_key time_of) (up_to b q (max_of a ats) rows) in
    at_key-resolve_all k snaps (a ∷ ats) [] ∙ elim (Bool-cases (asked k (a ∷ ats))) [
      | inl hit ↦
          rw (hit, nearest_past-get_rate_at b q k (max_of a ats) rows d (asked_le k a ats hit)) refl
      | inr miss ↦ rw miss refl
    ]

-- At each timestamp that is asked for, the one batch query answers what a query for that timestamp
-- alone does, or 1 for a currency in itself; it has an entry for no other time.
pub get_historical_rates_at_lem :
    (b q : String) (k : ℕ) (ats : List ℕ) (s : FxStore)
    → UniqueKeys s
    → at_key k (get_historical_rates_at b q ats s) ≡ (
        if asked k ats
        then some (if b ==ₛ q then some one else rate_of (get_rate_at b q k s.fx_rate_snapshots))
        else none)
unfolding get_historical_rates_at at_key
get_historical_rates_at_lem b q k ats s unique = ground (
  arith,
  at_key-ones k ats [],
  at_key-get_rates_at_batch b q k ats s.fx_rate_snapshots (unique b q).1,
  at_key-map k (get_rates_at_batch b q ats s.fx_rate_snapshots),
)
