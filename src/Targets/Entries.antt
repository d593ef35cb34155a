-- ===== src/Targets/Entries.antt =====
-- backend/app/schemas/target_allocation.py, backend/app/repositories/target_allocation.py and
-- backend/app/services/target_allocation.py. A weight is a number of 10^-4, as its column and its
-- schema have it; a bucket is its text. A request that the schema refuses does not reach the service.
use assetlog.Prelude.{
  ℕ, ◌+◌, String, Bool, Option, none, some, List, [], ◌∷◌, any, ltb, ◌==ₛ◌, if◌then◌else◌,
}
use assetlog.Prelude.Sorting.{sort, text_leb}

pub record TargetAllocation : Type 0 where
  pub asset_type : String
  pub target_pct : ℕ

abbrev pub of_type : String → TargetAllocation → Bool
of_type t e = e.asset_type ==ₛ t

abbrev pub total_pct : List TargetAllocation → ℕ
total_pct [] = 0
total_pct (e ∷ entries) = e.target_pct + total_pct entries

pub data ValueError : Type 0 where
  duplicate_asset_type : String → ValueError
  sum_above_one : ValueError

-- The loop of `_validate_sum_and_unique`, and the test after it.
unfoldable pub validate : List String → ℕ → List TargetAllocation → Option ValueError
validate seen total [] = if ltb 10_000 total then some sum_above_one else none
validate seen total (e ∷ entries) =
    let rest = validate (e.asset_type ∷ seen) (total + e.target_pct) entries in
    if any (λ t. t ==ₛ e.asset_type) seen then some (duplicate_asset_type e.asset_type) else rest

-- `list_all`: ORDER BY asset_type.
abbrev pub by_type : TargetAllocation → TargetAllocation → Bool
by_type a b = text_leb a.asset_type b.asset_type

unfoldable pub list_targets : List TargetAllocation → List TargetAllocation
unfolding sort
list_targets rows = sort by_type rows

pub data Response : Type 0 where
  refused : ValueError → Response
  entries : List TargetAllocation → Response

-- The whole table goes, and the entries come in their order.
unfoldable pub replace_all : List TargetAllocation → List TargetAllocation → List TargetAllocation
replace_all payload rows = payload

abbrev pub replaced :
    Option ValueError
    → List TargetAllocation
    → List TargetAllocation
    → Response × List TargetAllocation
replaced (some e) payload rows = (refused e, rows)
replaced none payload rows =
    let after = replace_all payload rows in (entries (list_targets after), after)

-- PUT /api/target-allocation
unfoldable pub replace :
    List TargetAllocation → List TargetAllocation → Response × List TargetAllocation
unfolding validate replace_all list_targets
replace payload rows = replaced (validate [] 0 payload) payload rows
