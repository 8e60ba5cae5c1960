-- ===== src/Review/Cycles.antt =====
-- .agents/runtime/bootstrap-review-dependencies.mjs: the edges between the reviews of a bootstrap
-- have no cycle. The order of UTF-16 code units that `sort` uses is a parameter.
use mathlib.Core.List.{Memᴰ}
use mathlib.Core.List.Memᴰ
use agentic_harness.Base.{
  ℕ, ◌≤◌, String, ◌≡◌, ◌≢◌, refl, ap, ◌∙◌, Bool, true, ◌&&◌, Option, none, some, List, [], ◌∷◌,
  arith, elem, unique, sort_by, Dict, lookup, eq_iff, if◌then◌else◌, Bool-cases, inl, inr,
}
use agentic_harness.Graph.{Arc, Order, complete, stuck, degree, search}
use agentic_harness.Graph.Counts.{count}
use agentic_harness.Graph.Ranks.{IsRank, IsGraph}
use agentic_harness.Graph.Acyclic.{IsOutcome, search-IsOutcome}
use agentic_harness.Graph.Degrees.{tally, degree-tally, count-unique, count-sort_by, sort_by-nil}
use agentic_harness.Review.{Edge}

-- The edges between selected stages.
abbrev pub selected_arcs : List String → List Edge → List Arc
selected_arcs selected [] = []
selected_arcs selected (e ∷ es) =
    let rest = selected_arcs selected es in
    let a : Arc = record { source = e.from_stage; target = e.to_stage } in
    if elem e.from_stage selected && elem e.to_stage selected then a ∷ rest else rest

-- `new Map([...selected].map((stage) => [stage, 0]))`
abbrev pub zeros : List String → Dict ℕ
zeros [] = []
zeros (stage ∷ stages) = (stage, 0) ∷ zeros stages

-- What `assertAcyclicBootstrapReviewDependencies` does: it returns, or it throws with these stages.
pub data Checked : Type 0 where
  acyclic : Checked
  cycle : List String → Checked

abbrev pub checked : (String → String → Bool) → Option Order → Option Checked
checked by_units none = none
checked by_units (some complete) = some acyclic
checked by_units (some (stuck left)) = some (cycle (sort_by by_units left))

-- `assertAcyclicBootstrapReviewDependencies`; `none` would be a search that runs out of fuel.
unfoldable pub assert_acyclic : (String → String → Bool) → List Edge → List String → Option Checked
unfolding tally
assert_acyclic by_units es selected_stages =
    let selected = unique selected_stages in
    let arcs = selected_arcs selected es in
    checked by_units (search (λ queue. queue) arcs selected (tally arcs (zeros selected)))

degree-zeros : (stages : List String) (t : String) → degree (zeros stages) t ≡ 0
unfolding lookup
degree-zeros [] t = refl
degree-zeros (s ∷ stages) t = ground (arith, degree-zeros stages t)

selected_ends :
    (selected : List String) (es : List Edge) (a : Arc)
    → Memᴰ a (selected_arcs selected es)
    → (elem a.source selected ≡ true) × (elem a.target selected ≡ true)
selected_ends selected [] a m = absurd (Memᴰ.not-nil m)
selected_ends selected (e ∷ es) a m =
    elim (Bool-cases (elem e.from_stage selected && elem e.to_stage selected)) [
      | inl both ↦ elim (Memᴰ.cases_cons (rw both at m)) [
        | inl same ↦ rw same (ground arith, ground arith)
        | inr later ↦ selected_ends selected es a later
      ]
      | inr skipped ↦ selected_ends selected es a (rw skipped at m)
    ]

elem-unique : (t : String) (xs : List String) → elem t (unique xs) ≡ true → 1 ≤ count t (unique xs)
elem-unique t xs h = elem-count t (unique xs) h
  where
    elem-count : (t : String) (xs : List String) → elem t xs ≡ true → 1 ≤ count t xs
    elem-count t [] h = absurd (cc h)
    elem-count t (x ∷ xs) h = ground (arith, elem-count t xs, eq_iff t x, eq_iff x t)

selected-IsGraph :
    (stages : List String) (es : List Edge)
    → let selected = unique stages in
      let arcs = selected_arcs selected es in IsGraph selected arcs (tally arcs (zeros selected))
selected-IsGraph stages es =
    let selected = unique stages in
    let arcs = selected_arcs selected es in
    record {
      once = λ t. ground (arith, count-unique t stages);
      source_in = λ a m. elem-unique a.source stages (selected_ends selected es a m).0;
      target_in = λ a m. elem-unique a.target stages (selected_ends selected es a m).1;
      degrees = λ t. omega (arith, degree-tally arcs (zeros selected) t, degree-zeros selected t);
    }

-- What the check says of the edges between selected stages.
abbrev pub IsVerdict : List Arc → Checked → Type 0
IsVerdict arcs acyclic = (rank : String → ℕ) × IsRank arcs rank
IsVerdict arcs (cycle left) =
    (left ≢ [])
    × ((t : String)
        → 1 ≤ count t left
        → (a : Arc) × Memᴰ a arcs × (a.target ≡ t) × (1 ≤ count a.source left))
    × ((rank : String → ℕ) → ¬ IsRank arcs rank)

checked-IsVerdict :
    (by_units : String → String → Bool) (arcs : List Arc) (o : Order)
    → IsOutcome arcs o
    → (c : Checked) × (checked by_units (some o) ≡ some c) × IsVerdict arcs c
checked-IsVerdict by_units arcs complete h = (acyclic, refl, h)
checked-IsVerdict by_units arcs (stuck left) (nonempty, blocked_by, unranked) =
    let same = λ (t : String). count-sort_by by_units t left in
    (
      cycle (sort_by by_units left),
      refl,
      (
        λ e. absurd (nonempty (sort_by-nil by_units left e)),
        λ t h.
            let (a, m, e, there) = blocked_by t (omega (arith, h, same t)) in
            (a, m, e, omega (arith, there, same a.source)),
        unranked,
      ),
    )

-- The check of the edges always ends. It passes only where the selected stages can be numbered so
-- that the numbers rise along every edge between them. Else it throws with a list of stages that is
-- not empty, each of which an edge from a stage of the list leads to, and no such numbering
-- exists.
pub assert_acyclic-IsVerdict :
    (by_units : String → String → Bool) (es : List Edge) (stages : List String)
    → (c : Checked) × (assert_acyclic by_units es stages ≡ some c)
      × IsVerdict (selected_arcs (unique stages) es) c
unfolding assert_acyclic
assert_acyclic-IsVerdict by_units es stages =
    let selected = unique stages in
    let arcs = selected_arcs selected es in
    let (o, e, h) =
      search-IsOutcome (λ queue. queue) (λ x xs. refl) arcs selected (tally arcs (zeros selected))
        (selected-IsGraph stages es) in
    let (c, same, verdict) = checked-IsVerdict by_units arcs o h in
    (c, ap (checked by_units) e ∙ same, verdict)
