-- ===== src/Liveness.antt =====
-- .agents/runtime/execution-liveness.mjs: the timeouts of an execution. A number is a quotient, or
-- `none` where it is not finite or is negative; `stage_is_review` is `isBootstrapReviewStage` of
-- bootstrap-capabilities.mjs, a parameter.
pub mod Timeouts
use Prim.Native.String.{◌++◌}
use agentic_harness.Base.{
  ℕ, ◌+◌, ◌*◌, ◌/◌, String, Bool, not, ◌||◌, Option, none, some, min, max, elem, ltb, ◌==◌, trim,
  is_truthy, ◌=ₛ◌, if◌then◌else◌,
}
use mathlib.Core.List.{List, [], ◌∷◌}

abbrev pub governance_stages : List String
governance_stages =
    "product-discovery" ∷ "architecture-review" ∷ "database-review" ∷ "infrastructure-review"
    ∷ "ai-operations-review" ∷ "technical-refinement" ∷ "product-acceptance" ∷ []

-- The number `numerator / (divisor + 1)`.
pub record Quotient : Type 0 where
  pub numerator : ℕ
  pub divisor : ℕ

-- `Math.round` of a number that is not negative: the whole part of the number and a half.
unfoldable pub round : Quotient → ℕ
round q = (2 * q.numerator + (q.divisor + 1)) / (2 * (q.divisor + 1))

-- `boundedPositive(value, fallback)`; a number between 0 and a half is rounded to 0.
unfoldable pub bounded_positive : Option Quotient → ℕ → ℕ
unfolding round
bounded_positive none fallback = fallback
bounded_positive (some q) fallback = if ltb 0 q.numerator then round q else fallback

pub record LivenessPolicy : Type 0 where
  pub hard_timeout_ms : ℕ
  pub soft_timeout_ms : Option ℕ
  pub stall_timeout_ms : Option ℕ
  pub policy : String

abbrev pub below : ℕ → ℕ → Option ℕ
below limit hard = if ltb limit hard then some limit else none

abbrev pub soft_cap : ℕ → ℕ
soft_cap attempt = if max 1 attempt == 1 then 1800000 else 2700000

unfoldable pub resolve_liveness_policy :
    (String → Bool) → String → ℕ → Option Quotient → LivenessPolicy
unfolding bounded_positive
resolve_liveness_policy stage_is_review stage attempt hard_timeout_ms =
    let hard = bounded_positive hard_timeout_ms 3600000 in
    let soft = min hard (soft_cap attempt) in
    if elem stage governance_stages || stage_is_review stage
    then record {
      hard_timeout_ms = hard;
      soft_timeout_ms = below soft hard;
      stall_timeout_ms = below (min soft 720000) hard;
      policy = "governance-progress-watchdog-v1";
    }
    else record {
      hard_timeout_ms = hard;
      soft_timeout_ms = none;
      stall_timeout_ms = none;
      policy = "hard-timeout-only";
    }

-- `startsWith` and `includes` of the host.
pub record TextTests : Type 0 where
  pub starts_with : String → String → Bool
  pub includes : String → String → Bool

unfoldable pub retry_rationale : TextTests → String → String
unfolding trim
retry_rationale tests prior_failure_code =
    let c = trim prior_failure_code in
    if not (is_truthy c)
    then "previous attempt rejected"
    else if c =ₛ "executor_stalled"
    then "executor stalled without output progress"
    else if c =ₛ "executor_soft_timeout"
    then "executor exceeded governance soft deadline"
    else if c =ₛ "executor_timeout"
    then "executor reached hard timeout"
    else if tests.starts_with "completion_" c
        || tests.includes "criterion" c
        || tests.includes "contract" c
    then "contract/completion rejection (" ++ (c ++ ")")
    else "previous failure (" ++ (c ++ ")")
