-- ===== src/Prelude/Keyed.antt =====
-- Python's `dict` with numbers as keys, in insertion order: rows by their ids, and values by times.
use Prim.Native.Nat.{ℕ}
use mathlib.Core.Path.{◌≡◌, refl}
use mathlib.Core.Option.{Option, none, some}
use mathlib.Core.List.{List, [], ◌∷◌}
use native.Mathlib.Omega.{arith}
use assetlog.Prelude.Tests.{◌==◌, if◌then◌else◌}

abbrev pub Keyed {ℓ} : Type ℓ → Type ℓ
Keyed V = List (ℕ × V)

module _ {ℓ} {V : Type ℓ} where
  -- `d.get(k)`
  unfoldable pub at_key : ℕ → Keyed V → Option V
  at_key k [] = none
  at_key k ((j, v) ∷ d) = let rest = at_key k d in if j == k then some v else rest

  -- `d.get(k, default)`
  unfoldable pub at_key_or : ℕ → V → Keyed V → V
  at_key_or k default [] = default
  at_key_or k default ((j, v) ∷ d) = let rest = at_key_or k default d in if j == k then v else rest

  -- `d[k] = v`
  unfoldable pub set_key : ℕ → V → Keyed V → Keyed V
  set_key k v [] = (k, v) ∷ []
  set_key k v ((j, w) ∷ d) =
      let rest = set_key k v d in if j == k then (j, v) ∷ d else (j, w) ∷ rest

  pub at_key-set_key :
      (k j : ℕ) (v : V) (d : Keyed V)
      → at_key j (set_key k v d) ≡ (if k == j then some v else at_key j d)
  unfolding at_key set_key
  at_key-set_key k j v [] = refl
  at_key-set_key k j v ((i, w) ∷ d) = ground (arith, at_key-set_key k j v d)

  pub at_key_or-set_key :
      (k j : ℕ) (v default : V) (d : Keyed V)
      → at_key_or j default (set_key k v d) ≡ (if k == j then v else at_key_or j default d)
  unfolding at_key_or set_key
  at_key_or-set_key k j v default [] = refl
  at_key_or-set_key k j v default ((i, w) ∷ d) = ground (arith, at_key_or-set_key k j v default d)
