-- ===== src/Targets/Tests.antt =====
-- Tests of the targets, and each property at an input.
use assetlog.Prelude.{ℕ, ◌≤◌, ◌≡◌, ◌⊎◌, refl, String, none, some, List, [], ◌∷◌, length, find}
use assetlog.Prelude.Int.{ℤ, pos, negsuc, ◌-ℤ◌, ◌*ℤ◌}
use assetlog.Prelude.Dict.{get_or, insert, lookup}
use assetlog.Targets.Entries.{
  TargetAllocation, of_type, total_pct, ValueError, duplicate_asset_type, sum_above_one,
  list_targets, refused, entries, replace,
}
use assetlog.Targets.Rebalance.{decide_action, Action, suggest, RebalanceEntry}
use assetlog.Targets.RoundTrip.{Once, list_targets-replace}

abbrev target : String → ℕ → TargetAllocation
target t pct = record { asset_type = t; target_pct = pct }

abbrev plan : List TargetAllocation
plan = target "us_stock" 6_000 ∷ target "cash" 4_000 ∷ []

sorted : replace plan [] ≡ (entries (target "cash" 4_000 ∷ target "us_stock" 6_000 ∷ []), plan)
unfolding replace
sorted = refl

twice :
    replace (target "cash" 1 ∷ target "cash" 2 ∷ []) plan
    ≡ (refused (duplicate_asset_type "cash"), plan)
unfolding replace
twice = refl

too_much :
    replace (target "cash" 6_000 ∷ target "crypto" 4_001 ∷ []) plan ≡ (refused sum_above_one, plan)
unfolding replace
too_much = refl

list_targets-replace_example :
    let (response, after) = replace plan (target "crypto" 1 ∷ []) in
    ((e : ValueError) × (response ≡ refused e) × (after ≡ target "crypto" 1 ∷ []))
    ⊎ ((response ≡ entries (list_targets after))
        × (length (list_targets after) ≡ length plan)
        × ((t : String) → find (of_type t) (list_targets after) ≡ find (of_type t) plan)
        × Once after
        × (total_pct after ≤ 10_000))
list_targets-replace_example = list_targets-replace plan (target "crypto" 1 ∷ [])

at_threshold :
    (decide_action (negsuc 499) (pos 500) ≡ Action.buy)
    × (decide_action (pos 499) (pos 500) ≡ Action.hold)
    × (decide_action (pos 500) (pos 500) ≡ Action.sell)
unfolding decide_action ◌-ℤ◌
at_threshold = (refl, refl, refl)

abbrev advice : String → ℤ → ℤ → ℤ → ℤ → Action → RebalanceEntry
advice t target current drift delta action = record {
  asset_type = t;
  target_pct = target;
  current_pct = current;
  drift_pct = drift;
  delta_amount = delta;
  action = action;
}

suggestion :
    suggest none plan (record {
      converted_total_value = some (pos 100);
      allocation = ("crypto", pos 2_000) ∷ ("us_stock", pos 8_000) ∷ [];
    })
    ≡ advice "cash" (pos 4_000) (pos 0) (negsuc 3_999) (pos 400_000) Action.buy
      ∷ advice "crypto" (pos 0) (pos 2_000) (pos 2_000) (negsuc 199_999) Action.sell
      ∷ advice "us_stock" (pos 6_000) (pos 8_000) (pos 2_000) (negsuc 199_999) Action.sell
      ∷ []
unfolding suggest insert lookup get_or ◌-ℤ◌ ◌*ℤ◌ decide_action
suggestion = refl
