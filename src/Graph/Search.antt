-- ===== src/Graph/Search.antt =====
-- The outer loop of the search ends, and what it has visited is in order.
use agentic_harness.Base.{
  ℕ, zero, suc, ◌+◌, ◌≤◌, String, ◌≡◌, refl, List, [], ◌∷◌, ◌++◌, arith, Dict, length, some,
}
use agentic_harness.Graph.{Arc, State, targets, release, visit, search_from}
use agentic_harness.Graph.Counts.{count, count-append, length-append, length-le}
use agentic_harness.Graph.Release.{
  open_arcs, BalancedAt, release-Balanced, visit-Balanced, queued-closed,
}

-- The last visited stage stands first: each stage was visited after all stages that lead to it.
abbrev pub IsOrdered : List Arc → List String → Type 0
IsOrdered arcs [] = Unit
IsOrdered arcs (s ∷ done) = (open_arcs arcs done s ≡ 0) × IsOrdered arcs done

-- The search has ended with these stages visited.
pub record IsFinal (arcs : List Arc) (stages : List String) (s : State) (done : List String)
    : Type 0 where
  pub balanced : (x : String) → BalancedAt arcs stages done [] [] s.indegree x
  pub counted : s.visited ≡ length done
  pub ordered : IsOrdered arcs done

module _ (arrange : List String → List String)
    (arrange_keeps : (x : String) (xs : List String) → count x (arrange xs) ≡ count x xs)
    (arcs : List Arc) (stages : List String) (once : (t : String) → count t stages ≤ 1)
    (inside : (q x : String) → 1 ≤ count x (targets arcs q) → 1 ≤ count x stages) where
  taken-le :
      (queue done : List String) (d : Dict ℕ)
      → ((x : String) → BalancedAt arcs stages done [] queue d x)
      → length queue + length done ≤ length stages
  taken-le queue done d b = omega (
    arith,
    length-append queue done,
    length-le (queue ++ done) stages (λ x. ground (arith, b x, count-append x queue done)),
  )

  pub search_from-IsFinal :
      (fuel : ℕ) (queue done : List String) (d : Dict ℕ) (visited : ℕ)
      → length stages ≤ fuel + length done
      → ((x : String) → BalancedAt arcs stages done [] queue d x)
      → visited ≡ length done
      → IsOrdered arcs done
      → (s : State) × (after : List String) × (search_from arrange arcs fuel queue d visited
          ≡ some s)
        × IsFinal arcs stages s after
  unfolding search_from visit
  search_from-IsFinal fuel [] done d visited enough b counted ordered = (
    record { queue = []; indegree = d; visited = visited },
    done,
    refl,
    record { balanced = b; counted = counted; ordered = ordered },
  )
  search_from-IsFinal zero (q ∷ rest) done d visited enough b counted ordered =
      absurd (omega (arith, taken-le (q ∷ rest) done d b))
  search_from-IsFinal (suc fuel) (q ∷ rest) done d visited enough b counted ordered =
      search_from-IsFinal fuel (arrange (release (targets arcs q) rest d).0) (q ∷ done)
        (release (targets arcs q) rest d).1 (suc visited) (omega arith)
        (λ x. rw (arrange_keeps x (release (targets arcs q) rest d).0) (
          release-Balanced arcs stages once (q ∷ done) (targets arcs q) rest d (inside q)
            (visit-Balanced arcs stages once done rest q d b) x))
        (omega (arith, counted)) (queued-closed arcs stages once done rest q d b, ordered)
