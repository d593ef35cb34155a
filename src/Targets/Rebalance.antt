-- ===== src/Targets/Rebalance.antt =====
-- backend/app/services/rebalance.py, on the summary that PortfolioService gives it. A fraction is a
-- number of 10^-4; the summary's percentages, which are floats, come as such.
use assetlog.Prelude.{String, Option, none, some, List, [], ◌∷◌, map, any, ◌==ₛ◌, if◌then◌else◌}
use assetlog.Prelude.Int.{ℤ, pos, ◌-ℤ◌, ◌*ℤ◌, leb_ℤ}
use assetlog.Prelude.Dict.{Dict, get_or, insert}
use assetlog.Prelude.Sorting.{sort, text_leb}
use assetlog.Targets.Entries.{TargetAllocation, list_targets}

pub data Action : Type 0 where
  buy sell hold : Action

unfoldable pub decide_action : ℤ → ℤ → Action
unfolding ◌-ℤ◌
decide_action drift_pct threshold =
    if leb_ℤ drift_pct (pos 0 -ℤ threshold)
    then buy
    else if leb_ℤ threshold drift_pct
    then sell
    else hold

-- What `suggest` reads of a portfolio summary.
pub record Summary : Type 0 where
  pub converted_total_value : Option ℤ
  pub allocation : List (String × ℤ)

pub record RebalanceEntry : Type 0 where
  pub asset_type : String
  pub target_pct : ℤ
  pub current_pct : ℤ
  pub drift_pct : ℤ
  pub delta_amount : ℤ
  pub action : Action

-- A dictionary from pairs.
abbrev pub dict_of : List (String × ℤ) → Dict ℤ → Dict ℤ
dict_of [] d = d
dict_of ((k, v) ∷ pairs) d = dict_of pairs (insert k v d)

abbrev pub target_pairs : List TargetAllocation → List (String × ℤ)
target_pairs entries = map (λ (e : TargetAllocation). (e.asset_type, pos e.target_pct)) entries

-- The keys of both dictionaries, each once.
abbrev pub keys : Dict ℤ → List String
keys d = map (λ (k, v). k) d

abbrev pub add_new : List String → List String → List String
add_new [] buckets = buckets
add_new (k ∷ ks) buckets =
    let more = add_new ks buckets in if any (λ b. b ==ₛ k) more then more else k ∷ more

unfoldable pub entry_for : ℤ → ℤ → Dict ℤ → Dict ℤ → String → RebalanceEntry
unfolding decide_action get_or ◌-ℤ◌ ◌*ℤ◌
entry_for threshold total_value target_map current_map bucket =
    let target = get_or bucket (pos 0) target_map in
    let current = get_or bucket (pos 0) current_map in
    record {
      asset_type = bucket;
      target_pct = target;
      current_pct = current;
      drift_pct = current -ℤ target;
      delta_amount = (target -ℤ current) *ℤ total_value;
      action = decide_action (current -ℤ target) threshold;
    }

abbrev or_value : Option ℤ → ℤ → ℤ
or_value none v = v
or_value (some w) v = w

unfoldable pub suggest : Option ℤ → List TargetAllocation → Summary → List RebalanceEntry
unfolding entry_for list_targets insert sort
suggest threshold_pct rows summary =
    let target_map = dict_of (target_pairs (list_targets rows)) [] in
    let current_map = dict_of summary.allocation [] in
    map
      (entry_for (or_value threshold_pct (pos 500)) (or_value summary.converted_total_value (pos 0))
        target_map current_map)
      (sort text_leb (add_new (keys target_map) (keys current_map)))
