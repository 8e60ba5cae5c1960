-- ===== src/Graph/Release.antt =====
-- The inner loop of the search: what is taken has degree 0, and each degree counts the open edges.
use agentic_harness.Base.{
  ℕ, ◌+◌, ◌-◌, ◌≤◌, String, ◌≡◌, refl, ◌⊎◌, ◌&&◌, List, [], ◌∷◌, ◌++◌, arith, Dict, put, lookup-put,
  eq_iff, eq_refl, ◌=ₛ◌, ◌==◌, if◌then◌else◌, Bool-cases, inl, inr,
}
use agentic_harness.Graph.{Arc, targets, degree, release}
use agentic_harness.Graph.Counts.{count, count-append}

-- The edges to a stage that do not come from a visited one.
abbrev pub open_arcs : List Arc → List String → String → ℕ
open_arcs [] done t = 0
open_arcs (a ∷ arcs) done t =
    (if a.target =ₛ t && count a.source done == 0 then 1 else 0) + open_arcs arcs done t

pub open_arcs-visit :
    (arcs : List Arc) (q : String) (done : List String) (t : String)
    → count q done ≡ 0
    → open_arcs arcs done t ≡ open_arcs arcs (q ∷ done) t + count t (targets arcs q)
open_arcs-visit [] q done t h = refl
open_arcs-visit (a ∷ arcs) q done t h = elim (Bool-cases (a.source =ₛ q)) [
  | inl same ↦
      let e = (eq_iff a.source q).0 same in
      ground (arith, open_arcs-visit arcs q done t h, eq_refl q, e)
  | inr other ↦
      ground (arith, open_arcs-visit arcs q done t h, eq_iff q a.source, eq_iff a.source q)
]

pub degree-put :
    (u t : String) (n : ℕ) (d : Dict ℕ) → degree (put u n d) t ≡ (if u =ₛ t then n else degree d t)
degree-put u t n d = ground (arith, lookup-put u t n d)

-- At every stage: the degree counts the open edges and those still to be released, the stage is
-- taken (queued or visited) at most once, and it is taken where its degree is 0 and only there.
abbrev pub BalancedAt :
    List Arc → List String → List String → List String → List String → Dict ℕ → String → Type 0
BalancedAt arcs stages done ts queue d t =
    (degree d t ≡ open_arcs arcs done t + count t ts)
    × (count t queue + count t done ≤ count t stages)
    × ((degree d t ≡ 0) × (count t stages ≤ count t queue + count t done)
        ⊎ (1 ≤ degree d t) × (count t queue + count t done ≡ 0))

module _ (arcs : List Arc) (stages : List String) (once : (t : String) → count t stages ≤ 1) where
  release_one :
      (done ts queue : List String) (d : Dict ℕ) (u t : String)
      → 1 ≤ count u stages
      → ((x : String) → BalancedAt arcs stages done (u ∷ ts) queue d x)
      → BalancedAt arcs stages done ts
          (if degree d u == 1 then queue ++ u ∷ [] else queue)
          (put u (degree d u - 1) d)
          t
  release_one done ts queue d u t there b = elim (Bool-cases (u =ₛ t)) [
    | inl same ↦ rw (← (eq_iff u t).0 same) (
        ground (
          arith,
          b u,
          once u,
          degree-put u u (degree d u - 1) d,
          eq_refl u,
          count-append u queue (u ∷ []),
        ))
    | inr other ↦
        ground (arith, b t, degree-put u t (degree d u - 1) d, count-append t queue (u ∷ []))
  ]

  pub release-Balanced :
      (done ts queue : List String) (d : Dict ℕ)
      → ((x : String) → 1 ≤ count x ts → 1 ≤ count x stages)
      → ((x : String) → BalancedAt arcs stages done ts queue d x)
      → (t : String)
      → BalancedAt arcs stages done [] (release ts queue d).0 (release ts queue d).1 t
  unfolding release
  release-Balanced done [] queue d inside b t = b t
  release-Balanced done (u ∷ ts) queue d inside b t =
      release-Balanced done ts _ _ (λ x h. inside x (omega (arith, h)))
        (λ x. release_one done ts queue d u x (inside u (ground (arith, eq_refl u))) b) t

  -- A visit moves a stage from the queue to the visited ones, and its edges to the released ones.
  pub visit-Balanced :
      (done rest : List String) (q : String) (d : Dict ℕ)
      → ((x : String) → BalancedAt arcs stages done [] (q ∷ rest) d x)
      → (t : String) → BalancedAt arcs stages (q ∷ done) (targets arcs q) rest d t
  visit-Balanced done rest q d b t =
      let unvisited : count q done ≡ 0 = ground (arith, b q, once q, eq_refl q) in
      ground (arith, b t, open_arcs-visit arcs q done t unvisited)

  -- What leaves the queue has no open edge.
  pub queued-closed :
      (done rest : List String) (q : String) (d : Dict ℕ)
      → ((x : String) → BalancedAt arcs stages done [] (q ∷ rest) d x)
      → open_arcs arcs done q ≡ 0
  queued-closed done rest q d b = ground (arith, b q, eq_refl q)
