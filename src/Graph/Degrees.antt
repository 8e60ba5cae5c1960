-- ===== src/Graph/Degrees.antt =====
-- The degrees that the callers count, the set of their stages, and the order of their queue.
use agentic_harness.Base.{
  ℕ, ◌+◌, String, ◌≡◌, refl, ap, Bool, List, [], ◌∷◌, arith, Dict, lookup, put, elem, unique,
  unique_from, length, sort_by, length-sort_by, insert_by, eq_iff, eq_refl, ◌=ₛ◌, if◌then◌else◌,
  Bool-cases, inl, inr,
}
use agentic_harness.Graph.{Arc, degree}
use agentic_harness.Graph.Counts.{count}
use agentic_harness.Graph.Release.{open_arcs, degree-put}

pub degree-nil : (t : String) → degree [] t ≡ 0
unfolding lookup
degree-nil t = refl

-- `indegree.set(to, (indegree.get(to) ?? 0) + 1)` for each edge.
unfoldable pub tally : List Arc → Dict ℕ → Dict ℕ
tally [] d = d
tally (a ∷ arcs) d = tally arcs (put a.target (degree d a.target + 1) d)

pub degree-tally :
    (arcs : List Arc) (d : Dict ℕ) (t : String)
    → degree (tally arcs d) t ≡ degree d t + open_arcs arcs [] t
unfolding tally
degree-tally [] d t = omega arith
degree-tally (a ∷ arcs) d t =
    let next = put a.target (degree d a.target + 1) d in
    elim (Bool-cases (a.target =ₛ t)) [
      | inl same ↦ rw (← (eq_iff a.target t).0 same) (
          ground (
            arith,
            degree-tally arcs next a.target,
            degree-put a.target a.target (degree d a.target + 1) d,
            eq_refl a.target,
          ))
      | inr other ↦
          ground (arith, degree-tally arcs next t, degree-put a.target t (degree d a.target + 1) d)
    ]

count-unique_from :
    (t : String) (seen xs : List String)
    → count t (unique_from seen xs) ≡ (if elem t seen then 0 else if elem t xs then 1 else 0)
unfolding unique_from
count-unique_from t seen [] = ground arith
count-unique_from t seen (x ∷ xs) = elim (Bool-cases (x =ₛ t)) [
  | inl same ↦
      rw (← (eq_iff x t).0 same)
        (ground (arith, count-unique_from x seen xs, count-unique_from x (x ∷ seen) xs, eq_refl x))
  | inr other ↦ ground (
    arith,
    count-unique_from t seen xs,
    count-unique_from t (x ∷ seen) xs,
    eq_iff x t,
    eq_iff t x,
  )
]

-- A set has each of its texts once.
pub count-unique :
    (t : String) (xs : List String) → count t (unique xs) ≡ (if elem t xs then 1 else 0)
unfolding unique
count-unique t xs = count-unique_from t [] xs

count-insert_by :
    (le : String → String → Bool) (t x : String) (xs : List String)
    → count t (insert_by le x xs) ≡ count t (x ∷ xs)
unfolding insert_by
count-insert_by le t x [] = refl
count-insert_by le t x (y ∷ ys) = ground (arith, count-insert_by le t x ys)

-- Sorting loses no stage.
pub count-sort_by :
    (le : String → String → Bool) (t : String) (xs : List String)
    → count t (sort_by le xs) ≡ count t xs
unfolding sort_by
count-sort_by le t [] = refl
count-sort_by le t (x ∷ xs) =
    omega (arith, count-insert_by le t x (sort_by le xs), count-sort_by le t xs)

pub sort_by-nil : (le : String → String → Bool) (xs : List String) → sort_by le xs ≡ [] → xs ≡ []
sort_by-nil le [] h = refl
sort_by-nil le (x ∷ xs) h = absurd (omega (arith, length-sort_by le (x ∷ xs), ap length h))
