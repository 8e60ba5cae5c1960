-- ===== src/Base/DictLaws.antt =====
-- Writes that change nothing, and searches among the values of a map.
use mathlib.Core.Path.{◌≡◌, refl, ap}
use Prim.Native.String.{String}
use mathlib.Core.Bool.{Bool, true}
use mathlib.Core.Option.{none, some}
use mathlib.Core.List.{List, [], ◌∷◌, ◌++◌}
use native.Mathlib.Omega.{arith}
use agentic_harness.Base.Lists.{find, length, take}
use agentic_harness.Base.Dicts.{Dict, lookup, put, without, values}

module _ {ℓ} {V : Type ℓ} where
  pub put-lookup_self : (k : String) (v : V) (d : Dict V) → lookup k d ≡ some v → put k v d ≡ d
  unfolding lookup put
  put-lookup_self k v [] h = cc
  put-lookup_self k v ((j, w) ∷ d) h = ground (arith, put-lookup_self k v d)

  pub without-lookup-none : (k : String) (d : Dict V) → lookup k d ≡ none → without k d ≡ d
  unfolding lookup without
  without-lookup-none k [] h = refl
  without-lookup-none k ((j, w) ∷ d) h = ground (arith, without-lookup-none k d)

  -- The value that a write adds is the one that a search finds, where there was none.
  pub find-values-put :
      (p : V → Bool) (k : String) (v : V) (d : Dict V)
      → find p (values d) ≡ none
      → p v ≡ true
      → find p (values (put k v d)) ≡ some v
  unfolding find values put
  find-values-put p k v [] h pv = ground arith
  find-values-put p k v ((j, w) ∷ d) h pv = ground (arith, find-values-put p k v d)

module _ {ℓ} {A : Type ℓ} where
  pub take-length : (xs : List A) → take (length xs) xs ≡ xs
  take-length [] = refl
  take-length (x ∷ xs) = ap (λ l. x ∷ l) (take-length xs)

  pub find-append_none :
      (p : A → Bool) (xs ys : List A) → find p xs ≡ none → find p (xs ++ ys) ≡ find p ys
  unfolding find
  find-append_none p [] ys h = refl
  find-append_none p (x ∷ xs) ys h = ground (arith, find-append_none p xs ys)
