-- ===== src/Policy/Verdicts.antt =====
-- When the policy allows.
use agentic_harness.Base.{
  ℕ, ◌≤◌, ◌<◌, ◌+◌, ◌≡◌, ◌≢◌, refl, ◌↔◌, true, false, not, ◌&&◌, none, some, arith, elem, is_blank,
  any, unique, Bool-cases, inl, inr,
}
use agentic_harness.Retry.Delay.{repairs_are_bounded}
use agentic_harness.Retry.{
  Failure, Efficiency, Disposition, is_classified, is_repair, BudgetState, Surroundings,
  efficiency_details, retry_disposition, retry_delay, unclassified, same_attempt_repair,
}
use agentic_harness.Retry.Budget.{evaluate_budget_iff}
use agentic_harness.Policy.{
  default_document, check_document, DispatchInput, evaluate_dispatch, retry_verdict, evaluate_retry,
  PromotionInput, evaluate_promotion,
}

-- The document that the engine uses without another one passes its own checks.
default_document_valid : check_document default_document ≡ none
unfolding check_document is_blank any unique
default_document_valid = refl

module _ (i : DispatchInput) where
  abbrev pub IsDispatchable : Type 0
  IsDispatchable =
      (elem i.run_status default_document.dispatch.terminal_run_statuses ≡ false)
      × (elem i.task_status default_document.dispatch.dispatchable_task_statuses ≡ true)
      × (i.dependencies_satisfied ≡ true)
      × (i.retry_window_open ≡ true)
      × (i.topology_ready ≡ true)

  -- Under the default rules a dispatch is allowed exactly when the run has not ended, the task is
  -- routed or retrying, its dependencies are satisfied, its retry window is open and the topology
  -- is refined.
  pub evaluate_dispatch_iff :
      ((evaluate_dispatch default_document.dispatch i).allowed ≡ true) ↔ IsDispatchable
  unfolding evaluate_dispatch
  evaluate_dispatch_iff = (λ h. ground arith, λ h. ground arith)

-- Under the default rules a promotion is allowed exactly when QA and the Product Owner have
-- accepted, operational readiness has accepted where it is required, and nothing blocks.
pub evaluate_promotion_iff :
    (i : PromotionInput)
    → ((evaluate_promotion default_document.promotion i).allowed ≡ true) ↔ (
        (i.qa_accepted ≡ true)
        × (i.readiness_required ≡ true → i.readiness_accepted ≡ true)
        × (i.product_acceptance_accepted ≡ true)
        × (i.blocking_failures ≡ 0))
unfolding evaluate_promotion
evaluate_promotion_iff i = (λ h. ground arith, λ h. ground arith)

retry_verdict_allows :
    (f : Failure) (attempt max_attempts : ℕ) (e : Efficiency)
    → (retry_verdict default_document.retry f attempt max_attempts e).allowed ≡ true
    → (f.retryable ≡ true)
      × (attempt < max_attempts)
      × (e.classification_known ≡ true)
      × ((e.same_attempt_repair_preferred && not f.repair_exhausted) ≡ false)
      × (e.retry_budget.allowed ≡ true)
      × ((retry_verdict default_document.retry f attempt max_attempts e).retry_after_ms
          ≡ some e.retry_after_ms)
unfolding retry_verdict
retry_verdict_allows f attempt max_attempts e h = ground arith

classified : (d : Disposition) → is_classified d ≡ true → d ≢ unclassified
classified unclassified h = cc
classified _ h = λ e. cc e

no_repair : (d : Disposition) → is_repair d ≡ false → d ≢ same_attempt_repair
no_repair same_attempt_repair h = cc
no_repair _ h = λ e. cc e

repair_excluded :
    (f : Failure)
    → (is_repair (retry_disposition f) && not f.repair_exhausted) ≡ false
    → retry_disposition f ≢ same_attempt_repair
repair_excluded f h = elim (Bool-cases f.repair_exhausted) [
  | inl used ↦ (repairs_are_bounded f none).0 used
  | inr left ↦ no_repair (retry_disposition f) (ground arith)
]

-- Under the default rules a retry is allowed only for a failure that is retryable and classified,
-- on an attempt below the limit, that is not to be repaired in the same attempt, and whose delay
-- fits into the budget; the decision then carries that delay.
pub evaluate_retry_allows :
    (f : Failure) (attempt max_attempts : ℕ) (b : BudgetState) (env : Surroundings)
    → let d = evaluate_retry default_document.retry f attempt max_attempts b env in
      let delay = retry_delay f env.caps attempt env.draw env.now in
      d.allowed ≡ true
      → (f.retryable ≡ true)
        × (attempt < max_attempts)
        × (retry_disposition f ≢ unclassified)
        × (retry_disposition f ≢ same_attempt_repair)
        × (b.elapsed_ms + delay ≤ env.limits.max_elapsed_ms)
        × (b.cumulative_backoff_ms + delay ≤ env.limits.max_cumulative_backoff_ms)
        × (d.retry_after_ms ≡ some delay)
unfolding evaluate_retry efficiency_details
evaluate_retry_allows f attempt max_attempts b env h =
    let e = efficiency_details f attempt b env in
    let (retryable, below, known, repair, fits, after) =
      retry_verdict_allows f attempt max_attempts e h in
    let (_, time, backoff) =
      (evaluate_budget_iff b (retry_delay f env.caps attempt env.draw env.now) env.limits).0 fits in
    (
      retryable,
      below,
      classified (retry_disposition f) known,
      repair_excluded f repair,
      time,
      backoff,
      after,
    )
