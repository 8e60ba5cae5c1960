-- ===== src/Base/Dicts.antt =====
-- `Map` with string keys, as its entries in order of insertion: a write to a key that is there
-- keeps its place, and a new key goes to the end.
use Prim.Native.String.{String}
use mathlib.Core.Path.{◌≡◌, refl}
use mathlib.Core.Option.{Option, none, some}
use mathlib.Core.List.{List, [], ◌∷◌}
use native.Mathlib.Omega.{arith}
use text.Mathlib.TextEquality.{eq_iff}
use agentic_harness.Base.Tests.{◌=ₛ◌, if◌then◌else◌}

abbrev pub Dict {ℓ} : Type ℓ → Type ℓ
Dict V = List (String × V)

module _ {ℓ} {V : Type ℓ} where
  -- `map.get(k)`
  unfoldable pub lookup : String → Dict V → Option V
  lookup k [] = none
  lookup k ((j, v) ∷ d) = if j =ₛ k then some v else lookup k d

  -- `map.set(k, v)`
  unfoldable pub put : String → V → Dict V → Dict V
  put k v [] = (k, v) ∷ []
  put k v ((j, w) ∷ d) = if j =ₛ k then (j, v) ∷ d else (j, w) ∷ put k v d

  -- `map.delete(k)`
  unfoldable pub without : String → Dict V → Dict V
  without k [] = []
  without k ((j, w) ∷ d) = let rest = without k d in if j =ₛ k then rest else (j, w) ∷ rest

  -- `map.values()`
  unfoldable pub values : Dict V → List V
  values [] = []
  values ((j, v) ∷ d) = v ∷ values d

  pub lookup-put :
      (k j : String) (v : V) (d : Dict V)
      → lookup j (put k v d) ≡ (if k =ₛ j then some v else lookup j d)
  unfolding lookup put
  lookup-put k j v [] = refl
  lookup-put k j v ((i, w) ∷ d) =
      ground (arith, eq_iff k j, eq_iff i k, eq_iff i j, lookup-put k j v d)

  pub lookup-without :
      (k j : String) (d : Dict V) → lookup j (without k d) ≡ (if k =ₛ j then none else lookup j d)
  unfolding lookup without
  lookup-without k j [] = ground arith
  lookup-without k j ((i, w) ∷ d) =
      ground (arith, eq_iff k j, eq_iff i k, eq_iff i j, lookup-without k j d)
