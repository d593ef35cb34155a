-- ===== src/Prelude/Dict.antt =====
-- Python's `dict` with text keys, in insertion order.
use Prim.Native.String.{String}
use mathlib.Core.Path.{◌≡◌, refl}
use mathlib.Core.Option.{Option, none, some}
use mathlib.Core.List.{List, [], ◌∷◌}
use native.Mathlib.Omega.{arith}
use text.Mathlib.TextEquality.{eq_iff}
use assetlog.Prelude.Tests.{◌==ₛ◌, if◌then◌else◌}
use assetlog.Prelude.Int.{ℤ, pos, ◌+ℤ◌, int_laws}

abbrev pub Dict {ℓ} : Type ℓ → Type ℓ
Dict V = List (String × V)

module _ {ℓ} {V : Type ℓ} where
  -- `d.get(k)`
  unfoldable pub lookup : String → Dict V → Option V
  lookup k [] = none
  lookup k ((j, v) ∷ d) = if j ==ₛ k then some v else lookup k d

  -- `d[k] = v`
  unfoldable pub insert : String → V → Dict V → Dict V
  insert k v [] = (k, v) ∷ []
  insert k v ((j, w) ∷ d) = if j ==ₛ k then (j, v) ∷ d else (j, w) ∷ insert k v d

  -- `d.get(k, default)`
  unfoldable pub get_or : String → V → Dict V → V
  unfolding lookup
  get_or k default d = elim (lookup k d) [ none ↦ default | some v ↦ v ]

  pub lookup-insert :
      (k j : String) (v : V) (d : Dict V)
      → lookup j (insert k v d) ≡ (if k ==ₛ j then some v else lookup j d)
  unfolding lookup insert
  lookup-insert k j v [] = refl
  lookup-insert k j v ((i, w) ∷ d) =
      ground (arith, eq_iff k j, eq_iff i k, eq_iff i j, lookup-insert k j v d)

  pub get_or-insert :
      (k j : String) (v default : V) (d : Dict V)
      → get_or j default (insert k v d) ≡ (if k ==ₛ j then v else get_or j default d)
  unfolding get_or
  get_or-insert k j v default d = ground (arith, lookup-insert k j v d)

module _ {ℓ} {V : Type ℓ} where
  pub get_or-cons :
      (k j : String) (default v : V) (d : Dict V)
      → get_or k default ((j, v) ∷ d) ≡ (if j ==ₛ k then v else get_or k default d)
  unfolding get_or
  get_or-cons k j default v d = ground arith

-- `d[k] = d.get(k, 0) + delta`
unfoldable pub bump : String → ℤ → Dict ℤ → Dict ℤ
unfolding get_or insert
bump k delta d = insert k (get_or k (pos 0) d +ℤ delta) d

pub get_or-bump :
    (k j : String) (delta : ℤ) (d : Dict ℤ)
    → get_or j (pos 0) (bump k delta d) ≡ get_or j (pos 0) d +ℤ (if k ==ₛ j then delta else pos 0)
unfolding bump
get_or-bump k j delta d =
    grind (int_laws, eq_iff k j, get_or-insert k j (get_or k (pos 0) d +ℤ delta) (pos 0) d)
