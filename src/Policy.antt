-- ===== src/Policy.antt =====
-- .agents/runtime/policy-engine.mjs: the policy document and the decisions on it. A decision is
-- modelled by its verdict, its code, its rule and the delay of a retry; the fingerprints that are
-- stamped on it are not.
pub mod Verdicts
pub mod Plan
pub mod PlanVerdict
use agentic_harness.Base.{
  ℕ, String, Bool, true, false, not, ◌&&◌, ◌||◌, Option, none, some, List, [], ◌∷◌, ltb, leb, ◌==◌,
  ◌=ₛ◌, elem, any, unique, length, is_blank, if◌then◌else◌,
}
use agentic_harness.Retry.{Failure, BudgetState, Surroundings, Efficiency, efficiency_details}

abbrev pub policy_contract_version : String
policy_contract_version = "runtime-policy/v1"

pub record PlanRules : Type 0 where
  pub required_phase : String
  pub unresolved_fact_policy : String
  pub self_dependency_policy : String
  pub cycle_policy : String

pub record DispatchRules : Type 0 where
  pub terminal_run_statuses : List String
  pub dispatchable_task_statuses : List String
  pub require_satisfied_dependencies : Bool
  pub require_open_retry_window : Bool
  pub require_refined_topology : Bool

pub record RetryRules : Type 0 where
  pub require_retryable_failure : Bool
  pub respect_attempt_budget : Bool
  pub default_delay_ms : ℕ

pub record CompileRules : Type 0 where
  pub required_source_phase : String
  pub require_accepted_technical_lead : Bool
  pub require_zero_preflight_issues : Bool

pub record PromotionRules : Type 0 where
  pub require_qa : Bool
  pub require_readiness_when_present : Bool
  pub require_product_acceptance : Bool
  pub max_blocking_failures : ℕ

pub record ReuseRules : Type 0 where
  pub scope_fields : List String
  pub require_revision_equality : Bool
  pub require_fingerprint_equality : Bool

pub record Document : Type 0 where
  pub schema_version : ℕ
  pub contract_version : String
  pub default_effect : String
  pub plan : PlanRules
  pub dispatch : DispatchRules
  pub retry : RetryRules
  pub compile : CompileRules
  pub promotion : PromotionRules
  pub reuse : ReuseRules

-- `DEFAULT_RUNTIME_POLICY_DOCUMENT`
abbrev pub default_document : Document
default_document = record {
  schema_version = 1;
  contract_version = policy_contract_version;
  default_effect = "deny";
  plan = record {
    required_phase = "bootstrap";
    unresolved_fact_policy = "provider-edge";
    self_dependency_policy = "deny";
    cycle_policy = "deny";
  };
  dispatch = record {
    terminal_run_statuses = "closed" ∷ "failed" ∷ "blocked" ∷ "cancelled" ∷ [];
    dispatchable_task_statuses = "routed" ∷ "retrying" ∷ [];
    require_satisfied_dependencies = true;
    require_open_retry_window = true;
    require_refined_topology = true;
  };
  retry = record {
    require_retryable_failure = true;
    respect_attempt_budget = true;
    default_delay_ms = 30000;
  };
  compile = record {
    required_source_phase = "bootstrap";
    require_accepted_technical_lead = true;
    require_zero_preflight_issues = true;
  };
  promotion = record {
    require_qa = true;
    require_readiness_when_present = true;
    require_product_acceptance = true;
    max_blocking_failures = 0;
  };
  reuse = record {
    scope_fields = "projectId" ∷ "branch" ∷ "stage" ∷ "role" ∷ "schemaVersion" ∷ [];
    require_revision_equality = true;
    require_fingerprint_equality = true;
  };
}

pub data DocumentError : Type 0 where
  document_invalid default_must_deny : DocumentError
  rule_invalid : String → DocumentError

-- A check: `none` where it passes. The first error of a sequence is the one that is thrown.
infixr 30 ◌then_check◌
abbrev ◌then_check◌ : Option DocumentError → Option DocumentError → Option DocumentError
none then_check next = next
some e then_check next = some e

-- `requirePolicyString(value, path, [allowed])`
abbrev check_string : String → String → String → Option DocumentError
check_string value path allowed =
    if is_blank value || not (value =ₛ allowed) then some (rule_invalid path) else none

-- `requirePolicyStringArray(value, path)`
abbrev check_texts : List String → String → Option DocumentError
check_texts [] path = some (rule_invalid path)
check_texts (x ∷ xs) path =
    if any is_blank (x ∷ xs) || not (length (unique (x ∷ xs)) == length (x ∷ xs))
    then some (rule_invalid path)
    else none

-- `normalizeDocument`: the checks that the types of the record do not make.
unfoldable pub check_document : Document → Option DocumentError
check_document d =
    (if not (d.schema_version == 1) || not (d.contract_version =ₛ policy_contract_version)
      then some document_invalid
      else none)
    then_check (if not (d.default_effect =ₛ "deny") then some default_must_deny else none)
    then_check check_string d.plan.required_phase "plan.requiredPhase" "bootstrap"
    then_check check_string d.plan.unresolved_fact_policy "plan.unresolvedFactPolicy"
        "provider-edge"
    then_check check_string d.plan.self_dependency_policy "plan.selfDependencyPolicy" "deny"
    then_check check_string d.plan.cycle_policy "plan.cyclePolicy" "deny"
    then_check check_texts d.dispatch.terminal_run_statuses "dispatch.terminalRunStatuses"
    then_check check_texts d.dispatch.dispatchable_task_statuses "dispatch.dispatchableTaskStatuses"
    then_check check_string d.compile.required_source_phase "compile.requiredSourcePhase"
        "bootstrap"
    then_check check_texts d.reuse.scope_fields "reuse.scopeFields"

pub record Decision : Type 0 where
  pub action : String
  pub allowed : Bool
  pub code : String
  pub rule_id : String
  pub retry_after_ms : Option ℕ

abbrev allow : String → String → Decision
allow action rule = record {
  action = action;
  allowed = true;
  code = "policy_allowed";
  rule_id = rule;
  retry_after_ms = none;
}

abbrev deny : String → String → String → Decision
deny action code rule = record {
  action = action;
  allowed = false;
  code = code;
  rule_id = rule;
  retry_after_ms = none;
}

pub record DispatchInput : Type 0 where
  pub run_status : String
  pub task_status : String
  pub dependencies_satisfied : Bool
  pub retry_window_open : Bool
  pub topology_ready : Bool

unfoldable pub evaluate_dispatch : DispatchRules → DispatchInput → Decision
evaluate_dispatch rules i =
    if elem i.run_status rules.terminal_run_statuses
    then deny "dispatch" "policy_dispatch_run_terminal" "dispatch.run-terminal"
    else if not (elem i.task_status rules.dispatchable_task_statuses)
    then deny "dispatch" "policy_dispatch_task_status" "dispatch.task-status"
    else if rules.require_satisfied_dependencies && not i.dependencies_satisfied
    then deny "dispatch" "policy_dispatch_dependencies_unsatisfied" "dispatch.dependencies"
    else if rules.require_open_retry_window && not i.retry_window_open
    then deny "dispatch" "policy_dispatch_retry_window_closed" "dispatch.retry-window"
    else if rules.require_refined_topology && not i.topology_ready
    then deny "dispatch" "policy_dispatch_topology_not_refined" "dispatch.bootstrap-topology"
    else allow "dispatch" "dispatch.ready"

-- The tests of `evaluateRetry`, given the details of the retry.
unfoldable pub retry_verdict : RetryRules → Failure → ℕ → ℕ → Efficiency → Decision
retry_verdict rules f attempt max_attempts e =
    if rules.require_retryable_failure && not f.retryable
    then deny "retry" "policy_retry_failure_non_retryable" "retry.retryability"
    else if rules.respect_attempt_budget && leb max_attempts attempt
    then deny "retry" "policy_retry_budget_exhausted" "retry.attempt-budget"
    else if not e.classification_known
    then deny "retry" "policy_retry_classification_required" "retry.failure-strategy-registry"
    else if e.same_attempt_repair_preferred && not f.repair_exhausted
    then record (deny "retry" "policy_retry_same_attempt_repair_required"
        "retry.same-attempt-repair") { retry_after_ms = some e.retry_after_ms }
    else if not e.retry_budget.allowed
    then record (deny "retry" "policy_retry_elapsed_budget_exhausted" "retry.elapsed-budget") {
      retry_after_ms = some e.retry_budget.retry_after_ms;
    }
    else record (allow "retry" "retry.allowed") { retry_after_ms = some e.retry_after_ms }

unfoldable pub evaluate_retry : RetryRules → Failure → ℕ → ℕ → BudgetState → Surroundings → Decision
unfolding retry_verdict efficiency_details
evaluate_retry rules f attempt max_attempts b env =
    retry_verdict rules f attempt max_attempts (efficiency_details f attempt b env)

unfoldable pub evaluate_compile : CompileRules → String → Bool → List String → Decision
evaluate_compile rules phase lead_accepted issues =
    if not (phase =ₛ rules.required_source_phase)
    then deny "compile" "policy_compile_phase_invalid" "compile.source-phase"
    else if rules.require_accepted_technical_lead && not lead_accepted
    then deny "compile" "policy_compile_technical_lead_not_accepted"
        "compile.technical-lead-authority"
    else if rules.require_zero_preflight_issues && ltb 0 (length issues)
    then deny "compile" "policy_compile_preflight_rejected" "compile.preflight"
    else allow "compile" "compile.authorized"

pub record PromotionInput : Type 0 where
  pub qa_accepted : Bool
  pub readiness_accepted : Bool
  pub readiness_required : Bool
  pub product_acceptance_accepted : Bool
  pub blocking_failures : ℕ

unfoldable pub evaluate_promotion : PromotionRules → PromotionInput → Decision
evaluate_promotion rules i =
    if rules.require_qa && not i.qa_accepted
    then deny "promotion" "policy_promotion_qa_unproven" "promotion.qa"
    else if i.readiness_required && rules.require_readiness_when_present && not i.readiness_accepted
    then deny "promotion" "policy_promotion_readiness_unproven" "promotion.readiness"
    else if rules.require_product_acceptance && not i.product_acceptance_accepted
    then deny "promotion" "policy_promotion_product_acceptance_unproven"
        "promotion.product-acceptance"
    else if ltb rules.max_blocking_failures i.blocking_failures
    then deny "promotion" "policy_promotion_blocking_failures" "promotion.blocking-failures"
    else allow "promotion" "promotion.authorized"

-- What a reuse compares: the scope fields by name (the empty text where one is missing), the
-- revision and the fingerprint.
pub record Evidence : Type 0 where
  pub scope : String → String
  pub revision : ℕ
  pub fingerprint : String

abbrev scope_differs : Evidence → Evidence → List String → Bool
scope_differs a b [] = false
scope_differs a b (f ∷ fs) = not (a.scope f =ₛ b.scope f) || scope_differs a b fs

abbrev compare_evidence : ReuseRules → Evidence → Evidence → Decision
compare_evidence rules a b =
    if scope_differs a b rules.scope_fields
    then deny "reuse" "policy_reuse_scope_mismatch" "reuse.scope"
    else if rules.require_revision_equality && not (a.revision == b.revision)
    then deny "reuse" "policy_reuse_revision_mismatch" "reuse.revision"
    else if rules.require_fingerprint_equality && not (a.fingerprint =ₛ b.fingerprint)
    then deny "reuse" "policy_reuse_fingerprint_mismatch" "reuse.fingerprint"
    else allow "reuse" "reuse.authorized"

unfoldable pub evaluate_reuse : ReuseRules → Option Evidence → Option Evidence → Decision
evaluate_reuse rules (some a) (some b) = compare_evidence rules a b
evaluate_reuse rules _ _ = deny "reuse" "policy_reuse_evidence_missing" "reuse.evidence"
