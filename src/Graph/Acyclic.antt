-- ===== src/Graph/Acyclic.antt =====
-- What the search reports: nothing exactly where the edges have a rank, that is, no cycle.
use mathlib.Core.List.{Memᴰ}
use agentic_harness.Base.{
  ℕ, zero, suc, ◌≤◌, ◌<◌, String, ◌≡◌, ◌≢◌, refl, ap, subst, true, List, [], arith, Dict, length,
  some, ltb, ◌==◌, Bool-cases, inl, inr,
}
use agentic_harness.Graph.{
  Arc, State, targets, degree, Order, complete, stuck, free, blocked, order_of, outcome, search,
}
use agentic_harness.Graph.Counts.{count, count-keep, Within, Within-back, length-le}
use agentic_harness.Graph.Release.{BalancedAt}
use agentic_harness.Graph.Search.{IsFinal, search_from-IsFinal}
use agentic_harness.Graph.Ranks.{IsRank, IsGraph, targets-mem, open_arc, place, place-rises}

-- What an outcome says of the edges.
abbrev pub IsOutcome : List Arc → Order → Type 0
IsOutcome arcs complete = (rank : String → ℕ) × IsRank arcs rank
IsOutcome arcs (stuck left) =
    (left ≢ [])
    × ((t : String)
        → 1 ≤ count t left
        → (a : Arc) × Memᴰ a arcs × (a.target ≡ t) × (1 ≤ count a.source left))
    × ((rank : String → ℕ) → ¬ IsRank arcs rank)

module _ (stages : List String) (arcs : List Arc) (d : Dict ℕ) (graph : IsGraph stages arcs d) where
  inside : (q x : String) → 1 ≤ count x (targets arcs q) → 1 ≤ count x stages
  inside q x h =
      let (a, m, e) = targets-mem arcs q x h in
      subst (λ y. 1 ≤ count y stages) e (graph.target_in a m)

  -- Nothing visited, the free stages queued.
  start-Balanced :
      (queue : List String)
      → ((x : String) → count x queue ≡ count x (free stages d))
      → (x : String) → BalancedAt arcs stages [] [] queue d x
  start-Balanced queue same x =
      ground (arith, same x, count-keep x (λ s. degree d s == 0) stages, graph.degrees x)

  module _ (s : State) (done : List String) (final : IsFinal arcs stages s done) where
    done-Within : Within done stages
    done-Within x = omega (arith, (final.balanced x).1)

    -- What blocks a stage is blocked.
    blocked_by :
        (t : String)
        → 1 ≤ count t (blocked stages s.indegree)
        → (a : Arc) × Memᴰ a arcs
          × (a.target ≡ t)
          × (1 ≤ count a.source (blocked stages s.indegree))
    blocked_by t h =
        let kept = λ (x : String). count-keep x (λ y. ltb 0 (degree s.indegree y)) stages in
        let (a, m, e, unvisited) =
          open_arc arcs done t (ground (arith, kept t, final.balanced t)) in
        (
          a,
          m,
          e,
          ground (arith, kept a.source, final.balanced a.source, graph.source_in a m, unvisited),
        )

    -- Where not all stages are visited, one is blocked.
    some_blocked : blocked stages s.indegree ≡ [] → Within stages done
    some_blocked h x = ground (
      arith,
      ap (count x) h,
      count-keep x (λ y. ltb 0 (degree s.indegree y)) stages,
      final.balanced x,
    )

    visited-Rank : Within stages done → IsRank arcs (place done)
    visited-Rank all a m =
        (place-rises arcs done a (λ x. omega (arith, done-Within x, graph.once x)) final.ordered m
          (omega (arith, all a.target, graph.target_in a m))).0

    -- Below any rank, all stages are visited.
    below_rank :
        (rank : String → ℕ)
        → IsRank arcs rank
        → (n : ℕ) (t : String) → rank t < n
        → count t stages ≤ count t done
    below_rank rank rises zero t less = absurd (omega arith)
    below_rank rank rises (suc n) t less = elim (final.balanced t).2 [
      | inl closed ↦ omega (arith, closed.1)
      | inr left ↦
          let (a, m, e, unvisited) =
            open_arc arcs done t (omega (arith, (final.balanced t).0, left.0)) in
          let lower : rank a.source < rank t = subst (λ x. rank a.source < rank x) e (rises a m) in
          absurd (
            omega (
              arith,
              graph.source_in a m,
              unvisited,
              below_rank rank rises n a.source (omega (arith, lower)),
            ))
    ]

    all_of_Rank : (rank : String → ℕ) → IsRank arcs rank → Within stages done
    all_of_Rank rank rises t = below_rank rank rises (suc (rank t)) t (omega arith)

    visited_count : Within stages done → (s.visited == length stages) ≡ true
    visited_count all =
        ground (arith, final.counted, length-le done stages done-Within, length-le stages done all)

    order-IsOutcome : IsOutcome arcs (order_of stages s)
    order-IsOutcome = elim (Bool-cases (s.visited == length stages)) [
      | inl all ↦ rw all (
        place done,
        visited-Rank (Within-back done stages done-Within (ground (arith, final.counted))),
      )
      | inr left ↦ rw left (
        λ h. absurd (cc (left, visited_count (some_blocked h))),
        blocked_by,
        λ rank rises. cc (left, visited_count (all_of_Rank rank rises)),
      )
    ]

-- The search ends within the fuel given, for any order of the queue. It visits all stages only where
-- a number can be given to each stage that rises along every edge; else there is no such number, it
-- has some stage left, and an edge leads to each stage left from a stage left.
pub search-IsOutcome :
    (arrange : List String → List String)
    → ((x : String) (xs : List String) → count x (arrange xs) ≡ count x xs)
    → (arcs : List Arc) (stages : List String) (d : Dict ℕ) → IsGraph stages arcs d
    → (o : Order) × (search arrange arcs stages d ≡ some o) × IsOutcome arcs o
unfolding search
search-IsOutcome arrange arrange_keeps arcs stages d graph =
    let queue = arrange (free stages d) in
    let (s, done, e, final) =
      search_from-IsFinal arrange arrange_keeps arcs stages graph.once (inside stages arcs d graph)
        (length stages) queue [] d 0 (omega arith)
        (start-Balanced stages arcs d graph queue (λ x. arrange_keeps x (free stages d))) refl tt in
    (order_of stages s, ap (outcome stages) e, order-IsOutcome stages arcs d graph s done final)
