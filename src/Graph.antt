-- ===== src/Graph.antt =====
-- The search for cycles by degrees, which .agents/runtime/policy-engine.mjs (cyclicReviewStages) and
-- .agents/runtime/bootstrap-review-dependencies.mjs (assertAcyclicBootstrapReviewDependencies) write
-- out each: the stages without an open edge are taken from a queue, and what they lead to is released.
pub mod Counts
pub mod Release
pub mod Search
pub mod Ranks
pub mod Acyclic
pub mod Degrees
use agentic_harness.Base.{
  ℕ, zero, suc, ◌-◌, String, Option, none, some, List, [], ◌∷◌, ◌++◌, keep, length, Dict, lookup,
  put, or_else, ltb, ◌==◌, ◌=ₛ◌, if◌then◌else◌,
}

-- An edge from one stage to another.
pub record Arc : Type 0 where
  pub source : String
  pub target : String

abbrev pub targets : List Arc → String → List String
targets [] stage = []
targets (a ∷ arcs) stage =
    let rest = targets arcs stage in if a.source =ₛ stage then a.target ∷ rest else rest

-- `indegree.get(stage) ?? 0`
abbrev pub degree : Dict ℕ → String → ℕ
degree indegree stage = or_else (lookup stage indegree) 0

pub record State : Type 0 where
  pub queue : List String
  pub indegree : Dict ℕ
  pub visited : ℕ

-- The inner loop: `next` is 0 where the degree was 1. (No degree is 0 there, so none falls below 0:
-- see `Graph.Release`.)
unfoldable pub release : List String → List String → Dict ℕ → List String × Dict ℕ
release [] queue indegree = (queue, indegree)
release (t ∷ ts) queue indegree =
    release ts (if degree indegree t == 1 then queue ++ t ∷ [] else queue)
      (put t (degree indegree t - 1) indegree)

module _ (arrange : List String → List String) (arcs : List Arc) where
  -- One round of the outer loop, after the stage has left the queue; `arrange` is what the caller
  -- does to the queue at its end.
  unfoldable pub visit : String → List String → Dict ℕ → ℕ → State
  unfolding release
  visit stage rest indegree visited =
      let (queue, next) = release (targets arcs stage) rest indegree in
      record { queue = arrange queue; indegree = next; visited = suc visited }

  -- The outer loop; `none` where the fuel runs out.
  unfoldable pub search_from : ℕ → List String → Dict ℕ → ℕ → Option State
  unfolding visit
  search_from fuel [] indegree visited =
      some (record { queue = []; indegree = indegree; visited = visited })
  search_from zero (stage ∷ rest) indegree visited = none
  search_from (suc fuel) (stage ∷ rest) indegree visited =
      let s = visit stage rest indegree visited in search_from fuel s.queue s.indegree s.visited

-- The stages that no round has reached.
abbrev pub blocked : List String → Dict ℕ → List String
blocked stages indegree = keep (λ s. ltb 0 (degree indegree s)) stages

abbrev pub free : List String → Dict ℕ → List String
free stages indegree = keep (λ s. degree indegree s == 0) stages

-- All stages visited, or the stages on or behind a cycle, unsorted.
pub data Order : Type 0 where
  complete : Order
  stuck : List String → Order

abbrev pub order_of : List String → State → Order
order_of stages s =
    if s.visited == length stages then complete else stuck (blocked stages s.indegree)

abbrev pub outcome : List String → Option State → Option Order
outcome stages none = none
outcome stages (some s) = some (order_of stages s)

-- The search from the free stages; the fuel is the number of stages, and `none` says that it has
-- run out.
unfoldable pub search : (List String → List String) → List Arc → List String → Dict ℕ → Option Order
unfolding search_from
search arrange arcs stages indegree =
    outcome stages
      (search_from arrange arcs (length stages) (arrange (free stages indegree)) indegree 0)
