-- ===== src/History/Timestamps.antt =====
-- The timestamps of the buckets.
use assetlog.Prelude.{
  ℕ, zero, suc, ◌+◌, ◌-◌, ◌*◌, ◌≤◌, ◌<◌, ◌≡◌, refl, ap, List, [], ◌∷◌, ◌++◌, All, All-append,
  All-mono, ltb, arith, inl, inr, Bool-cases,
}
use assetlog.Prelude.Sorting.{Ascending}
use assetlog.History.Buckets.{
  HistoryBucket, bucket_boundaries, generate_bucket_timestamps, bucket_to_timedelta,
}

-- start, start + delta, …: `n` times.
abbrev pub steps : ℕ → ℕ → ℕ → List ℕ
steps zero start delta = []
steps (suc n) start delta = start ∷ steps n (start + delta) delta

-- The loop has ended: its `n` boundaries are before `end`, and the next is not.
abbrev pub Ended : ℕ → ℕ → ℕ → ℕ → Type 0
Ended n start end delta = All (λ t. t < end) (steps n start delta) × (end ≤ start + n * delta)

-- With any fuel of at least the distance to the end, the loop ends by itself.
pub bucket_boundaries_lem :
    (fuel current end delta : ℕ)
    → 1 ≤ delta
    → end ≤ current + fuel
    → (n : ℕ) × (bucket_boundaries fuel current end delta ≡ steps n current delta ++ end ∷ [])
      × Ended n current end delta
unfolding bucket_boundaries
bucket_boundaries_lem zero current end delta d h = (0, refl, (tt, omega arith))
bucket_boundaries_lem (suc fuel) current end delta d h = elim (Bool-cases (ltb current end)) [
  | inl on ↦
      let (n, e, (below, reach)) =
        bucket_boundaries_lem fuel (current + delta) end delta d (omega arith) in
      (suc n, rw on (ap (λ ts. current ∷ ts) e), ((ground arith, below), grind (arith, reach)))
  | inr over ↦ (0, rw over refl, (tt, ground arith))
]

bucket_length : (bucket : HistoryBucket) → 1 ≤ bucket_to_timedelta bucket
unfolding bucket_to_timedelta
bucket_length HistoryBucket.five_min = omega arith
bucket_length HistoryBucket.hour = omega arith
bucket_length HistoryBucket.day = omega arith
bucket_length HistoryBucket.week = omega arith
bucket_length HistoryBucket.month = omega arith

-- For each bucket, `_generate_bucket_timestamps` returns the start, the start plus the bucket's length,
-- and so on as long as that is before the end, and then the end; its loop ends.
pub generate_bucket_timestamps_lem :
    (bucket : HistoryBucket) (start end : ℕ)
    → let delta = bucket_to_timedelta bucket in
      (n : ℕ) × (generate_bucket_timestamps start end delta ≡ steps n start delta ++ end ∷ [])
      × Ended n start end delta
unfolding generate_bucket_timestamps
generate_bucket_timestamps_lem bucket start end =
    bucket_boundaries_lem (end - start) start end (bucket_to_timedelta bucket)
      (bucket_length bucket) (omega arith)

steps-Ascending :
    (n start delta : ℕ)
    → Ascending (λ t. t) (steps n start delta) × All (λ t. start ≤ t) (steps n start delta)
steps-Ascending zero start delta = (tt, tt)
steps-Ascending (suc n) start delta =
    let (up, from) = steps-Ascending n (start + delta) delta in
    let later =
      All-mono _ (λ t. start ≤ t) (steps n (start + delta) delta) (λ t h. omega (arith, h)) from in
    ((later, up), (omega arith, later))

append-Ascending :
    (ts : List ℕ) (end : ℕ)
    → Ascending (λ t. t) ts
    → All (λ t. t < end) ts
    → Ascending (λ t. t) (ts ++ end ∷ [])
append-Ascending [] end up below = (tt, tt)
append-Ascending (t ∷ ts) end up below = (
  All-append _ ts (end ∷ []) up.0 (omega (arith, below.0), tt),
  append-Ascending ts end up.1 below.1,
)

pub timestamps-Ascending :
    (bucket : HistoryBucket) (start end : ℕ)
    → Ascending (λ t. t) (generate_bucket_timestamps start end (bucket_to_timedelta bucket))
timestamps-Ascending bucket start end =
    let delta = bucket_to_timedelta bucket in
    let (n, e, (below, reach)) = generate_bucket_timestamps_lem bucket start end in
    rw e (append-Ascending (steps n start delta) end (steps-Ascending n start delta).0 below)
