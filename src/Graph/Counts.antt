-- ===== src/Graph/Counts.antt =====
-- How often a stage stands in a list.
use agentic_harness.Base.{
  ℕ, suc, ◌+◌, ◌≤◌, String, ◌≡◌, Bool, List, [], ◌∷◌, ◌++◌, arith, length, keep, eq_iff, eq_refl,
  ◌=ₛ◌, if◌then◌else◌, Bool-cases, inl, inr,
}

abbrev pub count : String → List String → ℕ
count x [] = 0
count x (y ∷ ys) = (if y =ₛ x then 1 else 0) + count x ys

pub count-append : (x : String) (xs ys : List String) → count x (xs ++ ys) ≡ count x xs + count x ys
count-append x [] ys = omega arith
count-append x (y ∷ xs) ys = omega (arith, count-append x xs ys)

pub count-keep :
    (x : String) (p : String → Bool) (xs : List String)
    → count x (keep p xs) ≡ (if p x then count x xs else 0)
unfolding keep
count-keep x p [] = ground arith
count-keep x p (y ∷ ys) = elim (Bool-cases (y =ₛ x)) [
  | inl same ↦ let e = (eq_iff y x).0 same in rw e (ground (arith, count-keep x p ys))
  | inr other ↦ ground (arith, count-keep x p ys)
]

-- The first occurrence of a stage leaves the list.
remove : String → List String → List String
remove x [] = []
remove x (y ∷ ys) = let rest = remove x ys in if y =ₛ x then ys else y ∷ rest

count-remove :
    (x y : String) (ys : List String)
    → 1 ≤ count x ys
    → count y (remove x ys) + (if x =ₛ y then 1 else 0) ≡ count y ys
unfolding remove
count-remove x y [] h = absurd (omega arith)
count-remove x y (z ∷ zs) h =
    ground (arith, count-remove x y zs, eq_iff z x, eq_iff x y, eq_iff z y)

length-remove :
    (x : String) (ys : List String) → 1 ≤ count x ys → suc (length (remove x ys)) ≡ length ys
unfolding remove
length-remove x [] h = absurd (omega arith)
length-remove x (z ∷ zs) h = ground (arith, length-remove x zs)

-- Each stage stands in the first list at most as often as in the second one.
abbrev pub Within : List String → List String → Type 0
Within xs ys = (x : String) → count x xs ≤ count x ys

-- The first of a list that is within another one stands in that one.
first_there : (x : String) (xs ys : List String) → Within (x ∷ xs) ys → 1 ≤ count x ys
first_there x xs ys h = ground (arith, h x, eq_refl x)

Within-remove : (x : String) (xs ys : List String) → Within (x ∷ xs) ys → Within xs (remove x ys)
Within-remove x xs ys h y = omega (arith, h y, count-remove x y ys (first_there x xs ys h))

pub length-le : (xs ys : List String) → Within xs ys → length xs ≤ length ys
length-le [] ys h = omega arith
length-le (x ∷ xs) ys h = omega (
  arith,
  length-remove x ys (first_there x xs ys h),
  length-le xs (remove x ys) (Within-remove x xs ys h),
)

empty_of_length : (ys : List String) → length ys ≤ 0 → Within ys []
empty_of_length [] h y = omega arith
empty_of_length (z ∷ zs) h y = absurd (omega arith)

-- A list that is within another one and not shorter has it within.
pub Within-back : (xs ys : List String) → Within xs ys → length ys ≤ length xs → Within ys xs
Within-back [] ys h n y = empty_of_length ys n y
Within-back (x ∷ xs) ys h n y = omega (
  arith,
  count-remove x y ys (first_there x xs ys h),
  length-remove x ys (first_there x xs ys h),
  Within-back xs (remove x ys) (Within-remove x xs ys h)
      (omega (arith, length-remove x ys (first_there x xs ys h))) y,
)

pub length-append : (xs ys : List String) → length (xs ++ ys) ≡ length xs + length ys
length-append [] ys = omega arith
length-append (x ∷ xs) ys = omega (arith, length-append xs ys)
