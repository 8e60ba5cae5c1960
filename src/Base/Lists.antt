-- ===== src/Base/Lists.antt =====
-- Lists measured by native numbers, and the array methods `some`, `every`, `filter`, `includes`.
use Prim.Native.Nat.{ℕ, zero, suc, ◌+◌, ◌≤◌}
use Prim.Native.String.{String}
use mathlib.Core.Path.{◌≡◌}
use mathlib.Core.Bool.{Bool, true, false, ◌&&◌, ◌||◌}
use mathlib.Core.Option.{Option, none, some}
use mathlib.Core.List.{List, [], ◌∷◌, ◌++◌}
use native.Mathlib.Omega.{arith}
use agentic_harness.Base.Tests.{◌=ₛ◌, if◌then◌else◌}

module _ {ℓ} {A : Type ℓ} where
  abbrev pub length : List A → ℕ
  length [] = 0
  length (x ∷ xs) = suc (length xs)

  abbrev pub take : ℕ → List A → List A
  take zero xs = []
  take (suc n) [] = []
  take (suc n) (x ∷ xs) = x ∷ take n xs

  -- `array.some(test)`
  unfoldable pub any : (A → Bool) → List A → Bool
  any p [] = false
  any p (x ∷ xs) = p x || any p xs

  -- `array.every(test)`
  unfoldable pub all : (A → Bool) → List A → Bool
  all p [] = true
  all p (x ∷ xs) = p x && all p xs

  -- `array.filter(test)`
  unfoldable pub keep : (A → Bool) → List A → List A
  keep p [] = []
  keep p (x ∷ xs) = let rest = keep p xs in if p x then x ∷ rest else rest

  -- `array.find(test)`
  unfoldable pub find : (A → Bool) → List A → Option A
  find p [] = none
  find p (x ∷ xs) = if p x then some x else find p xs

  pub length-append : (xs ys : List A) → length (xs ++ ys) ≡ length xs + length ys
  length-append [] ys = omega arith
  length-append (x ∷ xs) ys = omega (arith, length-append xs ys)

  pub length-take-le : (n : ℕ) (xs : List A) → length (take n xs) ≤ n
  length-take-le zero xs = omega arith
  length-take-le (suc n) [] = omega arith
  length-take-le (suc n) (x ∷ xs) = omega (arith, length-take-le n xs)

-- `array.includes(text)`, `set.has(text)`
abbrev pub elem : String → List String → Bool
elem s [] = false
elem s (x ∷ xs) = s =ₛ x || elem s xs

unfoldable pub unique_from : List String → List String → List String
unique_from seen [] = []
unique_from seen (x ∷ xs) =
    let fresh = x ∷ unique_from (x ∷ seen) xs in
    let old = unique_from seen xs in if elem x seen then old else fresh

-- `[...new Set(texts)]`
unfoldable pub unique : List String → List String
unfolding unique_from
unique xs = unique_from [] xs

-- Two arrays of texts with the same elements in the same places.
unfoldable pub same_texts : List String → List String → Bool
same_texts [] [] = true
same_texts (x ∷ xs) (y ∷ ys) = x =ₛ y && same_texts xs ys
same_texts _ _ = false
