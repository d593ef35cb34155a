-- ===== src/Performance/Rates.antt =====
-- The rates that backend/app/services/performance.py fetches beforehand, and its `fx_at_sync`, which
-- reads them. A conversion is none where it raises; its result is in 10^-8 of the amount's unit.
use assetlog.Prelude.{
  ℕ, ◌-◌, ◌%◌, String, Bool, true, false, Option, none, some, List, [], ◌∷◌, any, ◌==◌, ◌==ₛ◌, ◌&&◌,
  if◌then◌else◌,
}
use assetlog.Prelude.Int.{ℤ, pos, ◌*ℤ◌}
use assetlog.Prelude.Keyed.{Keyed, at_key_or}
use assetlog.Fx.Service.{FxStore, one, convert_at}

-- A key of `fx_cache`.
pub record FxKey : Type 0 where
  pub from_cur : String
  pub to_cur : String
  pub at : ℕ

abbrev pub same_key : FxKey → FxKey → Bool
same_key a b = a.from_cur ==ₛ b.from_cur && a.to_cur ==ₛ b.to_cur && a.at == b.at

-- `.replace(minute=0, second=0, microsecond=0)`
abbrev pub hour_of : ℕ → ℕ
hour_of at = at - at % 3_600_000_000

-- `unique_pairs.add(...)`
abbrev pub add_key : FxKey → List FxKey → List FxKey
add_key key pairs = if any (λ k. same_key k key) pairs then pairs else key ∷ pairs

-- The pairs of the holdings' currencies at one timestamp.
unfoldable pub add_symbols : String → Keyed String → ℕ → List ℕ → List FxKey → List FxKey
unfolding at_key_or
add_symbols currency symbol_currency ts [] pairs = pairs
add_symbols currency symbol_currency ts (sym_id ∷ ids) pairs =
    let sym_cur = at_key_or sym_id currency symbol_currency in
    add_symbols currency symbol_currency ts ids (
      if sym_cur ==ₛ currency
      then pairs
      else add_key (record { from_cur = sym_cur; to_cur = currency; at = hour_of ts }) pairs)

unfoldable pub add_timestamps : String → Keyed String → List ℕ → List ℕ → List FxKey → List FxKey
unfolding add_symbols
add_timestamps currency symbol_currency ids [] pairs = pairs
add_timestamps currency symbol_currency ids (ts ∷ timestamps) pairs =
    add_timestamps currency symbol_currency ids timestamps
      (add_symbols currency symbol_currency ts ids pairs)

module _ (fx : FxStore) where
  -- `_fetch_one`
  unfoldable pub fetch_one : FxKey → Option ℤ
  unfolding convert_at
  fetch_one key =
      if key.from_cur ==ₛ key.to_cur
      then some one
      else convert_at (pos 1) key.from_cur key.to_cur key.at fx

  abbrev add_rate : FxKey → Option ℤ → List (FxKey × ℤ) → List (FxKey × ℤ)
  add_rate key none cache = cache
  add_rate key (some rate) cache = (key, rate) ∷ cache

  -- `fx_cache` after the loop over the fetched rates.
  unfoldable pub fetch_all : List FxKey → List (FxKey × ℤ)
  unfolding fetch_one
  fetch_all [] = []
  fetch_all (key ∷ pairs) = add_rate key (fetch_one key) (fetch_all pairs)

  abbrev is_missing : Option ℤ → Bool
  is_missing none = true
  is_missing (some rate) = false

  -- `fx_missing`
  unfoldable pub fx_missing : List FxKey → Bool
  unfolding fetch_one
  fx_missing pairs = any (λ key. is_missing (fetch_one key)) pairs

-- `fx_cache.get(key)`
unfoldable pub cached : FxKey → List (FxKey × ℤ) → Option ℤ
cached key [] = none
cached key ((k, rate) ∷ cache) =
    let rest = cached key cache in if same_key k key then some rate else rest

abbrev pub scaled : ℤ → Option ℤ → Option ℤ
scaled amount none = none
scaled amount (some rate) = some (amount *ℤ rate)

unfoldable pub fx_at_sync : List (FxKey × ℤ) → ℤ → String → String → ℕ → Option ℤ
unfolding cached ◌*ℤ◌
fx_at_sync cache amount from_cur to_cur at =
    if from_cur ==ₛ to_cur
    then some (amount *ℤ one)
    else scaled amount
        (cached (record { from_cur = from_cur; to_cur = to_cur; at = hour_of at }) cache)
