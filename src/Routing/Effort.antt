-- ===== src/Routing/Effort.antt =====
-- .agents/runtime/model-router.mjs: the effort of retries.
use agentic_harness.Base.{
  ℕ, ◌+◌, ◌≤◌, String, ◌≡◌, refl, Bool, true, ◌||◌, arith, Bool-cases, inl, inr,
}
use agentic_harness.Routing.{
  RoutedTask, normalize_level, implementation_reasoning, is_implementation, is_governed, governed,
  reasoning_effort, rank,
}

rank-le : (level : String) → rank level ≤ 3
unfolding rank
rank-le level = ground arith

rank-max : (level : String) → rank level ≤ rank "max"
unfolding rank
rank-max level = rank-le level

-- From the second attempt on, an implementation reasons at the highest level.
retried :
    (t : RoutedTask) (level : String) (attempt : ℕ)
    → 2 ≤ attempt
    → implementation_reasoning t level attempt ≡ "max"
unfolding implementation_reasoning
retried t level attempt h = ground arith

governed_max : (level : String) (attempt : ℕ) → 2 ≤ attempt → governed level attempt ≡ "max"
governed_max level attempt h = ground arith

-- From one attempt to the next the effort of a route does not fall; and from the second attempt on,
-- an implementation or a governed task has the highest one.
pub reasoning_effort_rises :
    (is_review_stage : String → Bool) (t : RoutedTask) (role requested : String) (attempt : ℕ)
    → 1 ≤ attempt
    → (rank (reasoning_effort is_review_stage t role requested attempt)
        ≤ rank (reasoning_effort is_review_stage t role requested (attempt + 1)))
      × (is_implementation role t || is_governed (is_review_stage t.stage) role ≡ true
          → reasoning_effort is_review_stage t role requested (attempt + 1) ≡ "max")
unfolding reasoning_effort
reasoning_effort_rises is_review_stage t role requested attempt h =
    let level = normalize_level requested "medium" in
    elim (Bool-cases (is_implementation role t)) [
      | inl implementing ↦
          rw (implementing, retried t level (attempt + 1) (omega arith))
            (rank-max (implementation_reasoning t level attempt), λ _. refl)
      | inr other ↦ elim (Bool-cases (is_governed (is_review_stage t.stage) role)) [
        | inl reviewing ↦
            rw (other, reviewing, governed_max level (attempt + 1) (omega arith))
              (rank-max (governed level attempt), λ _. refl)
        | inr plain ↦ rw (other, plain) (omega arith, λ e. absurd (cc e))
      ]
    ]
