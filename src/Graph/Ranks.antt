-- ===== src/Graph/Ranks.antt =====
-- What the search finds: no stage exactly where the edges have a rank.
use mathlib.Core.List.{Memᴰ}
use mathlib.Core.List.Memᴰ
use agentic_harness.Base.{
  ℕ, suc, ◌≤◌, ◌<◌, String, ◌≡◌, refl, ap, subst, ◌&&◌, List, [], ◌∷◌, arith, Dict, length, eq_iff,
  eq_refl, ◌=ₛ◌, ◌==◌, if◌then◌else◌, Bool-cases, inl, inr,
}
use agentic_harness.Graph.{Arc, targets, degree}
use agentic_harness.Graph.Counts.{count}
use agentic_harness.Graph.Release.{open_arcs}
use agentic_harness.Graph.Search.{IsOrdered}

-- A number for each stage that rises along every edge.
abbrev pub IsRank : List Arc → (String → ℕ) → Type 0
IsRank arcs rank = (a : Arc) → Memᴰ a arcs → rank a.source < rank a.target

-- Stages without repetition, edges between them, and the degrees of the edges.
pub record IsGraph (stages : List String) (arcs : List Arc) (d : Dict ℕ) : Type 0 where
  pub once : (t : String) → count t stages ≤ 1
  pub source_in : (a : Arc) → Memᴰ a arcs → 1 ≤ count a.source stages
  pub target_in : (a : Arc) → Memᴰ a arcs → 1 ≤ count a.target stages
  pub degrees : (t : String) → degree d t ≡ open_arcs arcs [] t

pub targets-mem :
    (arcs : List Arc) (q x : String)
    → 1 ≤ count x (targets arcs q)
    → (a : Arc) × Memᴰ a arcs × (a.target ≡ x)
targets-mem [] q x h = absurd (omega arith)
targets-mem (a ∷ arcs) q x h = elim (Bool-cases (a.source =ₛ q && a.target =ₛ x)) [
  | inl here ↦ (a, Memᴰ.head refl, ground (arith, eq_iff a.target x))
  | inr elsewhere ↦ let (b, m, e) = targets-mem arcs q x (ground arith) in (b, Memᴰ.tail m, e)
]

pub open_arc :
    (arcs : List Arc) (done : List String) (t : String)
    → 1 ≤ open_arcs arcs done t
    → (a : Arc) × Memᴰ a arcs × (a.target ≡ t) × (count a.source done ≡ 0)
open_arc [] done t h = absurd (omega arith)
open_arc (a ∷ arcs) done t h = elim (Bool-cases (a.target =ₛ t && count a.source done == 0)) [
  | inl here ↦ (a, Memᴰ.head refl, ground (arith, eq_iff a.target t), ground arith)
  | inr elsewhere ↦
      let (b, m, e, free) = open_arc arcs done t (ground arith) in (b, Memᴰ.tail m, e, free)
]

-- Where no edge to a stage is open, the sources of all edges to it are visited.
closed_arc :
    (arcs : List Arc) (done : List String) (a : Arc)
    → Memᴰ a arcs
    → open_arcs arcs done a.target ≡ 0
    → 1 ≤ count a.source done
closed_arc [] done a m h = absurd (Memᴰ.not-nil m)
closed_arc (b ∷ arcs) done a m h = elim (Memᴰ.cases_cons m) [
  | inl same ↦
      ground
        (arith, ap (λ (x : Arc). x.target) same, ap (λ (x : Arc). x.source) same, eq_refl a.target)
  | inr later ↦ closed_arc arcs done a later (omega arith)
]

-- The place of a stage in the order of visits, from 1.
unfoldable pub place : List String → String → ℕ
place [] x = 0
place (s ∷ done) x = let rest = place done x in if s =ₛ x then suc (length done) else rest

pub place-le : (done : List String) (x : String) → place done x ≤ length done
unfolding place
place-le [] x = omega arith
place-le (s ∷ done) x = ground (arith, place-le done x)

-- Along an edge to a visited stage the place rises, and the edge comes from a visited one.
pub place-rises :
    (arcs : List Arc) (done : List String) (a : Arc)
    → ((x : String) → count x done ≤ 1)
    → IsOrdered arcs done
    → Memᴰ a arcs
    → 1 ≤ count a.target done
    → (place done a.source < place done a.target) × (1 ≤ count a.source done)
unfolding place
place-rises arcs [] a once ordered m h = absurd (omega arith)
place-rises arcs (s ∷ done) a once ordered m h = elim (Bool-cases (s =ₛ a.target)) [
  | inl same ↦
      let e = (eq_iff s a.target).0 same in
      let before = closed_arc arcs done a m (subst (λ x. open_arcs arcs done x ≡ 0) e ordered.0) in
      ground (arith, before, place-le done a.source, once a.source, eq_iff s a.source)
  | inr other ↦
      let (less, before) =
        place-rises arcs done a (λ x. omega (arith, once x)) ordered.1 m (ground arith) in
      ground (arith, less, before, once a.source, eq_iff s a.source)
]
