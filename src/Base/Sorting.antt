-- ===== src/Base/Sorting.antt =====
-- `[...array].sort(compare)`: the stable sort, as insertion by a test of "not after".
use Prim.Native.Nat.{ℕ, suc}
use mathlib.Core.Path.{◌≡◌, refl, ap, ◌∙◌}
use mathlib.Core.Bool.{Bool, true}
use mathlib.Core.List.{List, [], ◌∷◌}
use native.Mathlib.Omega.{arith}
use agentic_harness.Base.Tests.{if◌then◌else◌, Bool-cases}
use mathlib.Core.Logic.{inl, inr}
use agentic_harness.Base.Lists.{length, take, keep}

module _ {ℓ} {A : Type ℓ} where
  abbrev pub All {κ} : (A → Type κ) → List A → Type κ
  All P [] = Unit
  All P (x ∷ xs) = P x × All P xs

  unfoldable pub insert_by : (A → A → Bool) → A → List A → List A
  insert_by le x [] = x ∷ []
  insert_by le x (y ∷ ys) = if le x y then x ∷ y ∷ ys else y ∷ insert_by le x ys

  unfoldable pub sort_by : (A → A → Bool) → List A → List A
  unfolding insert_by
  sort_by le [] = []
  sort_by le (x ∷ xs) = insert_by le x (sort_by le xs)

  pub length-insert_by :
      (le : A → A → Bool) (x : A) (xs : List A) → length (insert_by le x xs) ≡ suc (length xs)
  unfolding insert_by
  length-insert_by le x [] = refl
  length-insert_by le x (y ∷ ys) = ground (arith, length-insert_by le x ys)

  pub length-sort_by : (le : A → A → Bool) (xs : List A) → length (sort_by le xs) ≡ length xs
  unfolding sort_by
  length-sort_by le [] = refl
  length-sort_by le (x ∷ xs) = length-insert_by le x (sort_by le xs) ∙ ap suc (length-sort_by le xs)

module _ {ℓ κ} {A : Type ℓ} (P : A → Type κ) where
  All-insert_by :
      (le : A → A → Bool) (x : A) (xs : List A) → P x → All P xs → All P (insert_by le x xs)
  unfolding insert_by
  All-insert_by le x [] px h = (px, tt)
  All-insert_by le x (y ∷ ys) px h = elim (Bool-cases (le x y)) [
    | inl first ↦ rw first (px, h)
    | inr later ↦ rw later (h.0, All-insert_by le x ys px h.1)
  ]

  pub All-sort_by : (le : A → A → Bool) (xs : List A) → All P xs → All P (sort_by le xs)
  unfolding sort_by
  All-sort_by le [] h = tt
  All-sort_by le (x ∷ xs) h = All-insert_by le x (sort_by le xs) h.0 (All-sort_by le xs h.1)

  pub All-take : (n : ℕ) (xs : List A) → All P xs → All P (take n xs)
  All-take ℕ.zero xs h = tt
  All-take (suc n) [] h = tt
  All-take (suc n) (x ∷ xs) h = (h.0, All-take n xs h.1)

-- What a filter keeps passes its test.
pub All-keep {ℓ} : {A : Type ℓ} (p : A → Bool) (xs : List A) → All (λ x. p x ≡ true) (keep p xs)
unfolding keep
All-keep p [] = tt
All-keep p (x ∷ xs) = elim (Bool-cases (p x)) [
  | inl passes ↦ rw passes (passes, All-keep p xs)
  | inr fails ↦ rw fails (All-keep p xs)
]

pub All-imp {ℓ κ μ} :
    {A : Type ℓ} (P : A → Type κ) (Q : A → Type μ) (xs : List A)
    → ((x : A) → P x → Q x)
    → All P xs
    → All Q xs
All-imp P Q [] f h = tt
All-imp P Q (x ∷ xs) f h = (f x h.0, All-imp P Q xs f h.1)
