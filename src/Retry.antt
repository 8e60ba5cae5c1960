-- ===== src/Retry.antt =====
-- .agents/runtime/retry-efficiency.mjs: how a failure is classified, how long a retry waits, and
-- the budget of a task's retries. Times are natural numbers of milliseconds.
pub mod Budget
pub mod Delay
use agentic_harness.Base.{
  ℕ, zero, suc, ◌+◌, ◌-◌, ◌*◌, ◌/◌, String, Bool, true, false, not, ◌&&◌, ◌||◌, Option, none, some,
  List, [], ◌∷◌, min, max, ltb, leb, ◌=ₛ◌, elem, trim, is_truthy, or_else, opt_eq, lookup, Dict,
  if◌then◌else◌,
}

pub data Disposition : Type 0 where
  same_attempt_repair review_dependent true_retry_semantic true_retry_transient terminal
        unclassified true_retry_repair_exhausted :
      Disposition

pub record Strategy : Type 0 where
  pub disposition : Disposition
  pub category : String

abbrev entry : String → Disposition → String → String × Strategy
entry code d c = (code, record { disposition = d; category = c })

-- `RETRY_FAILURE_STRATEGIES`
unfoldable pub failure_strategies : Dict Strategy
failure_strategies =
    entry "handoff_schema_invalid" same_attempt_repair "contract"
    ∷ entry "implementation_plan_invalid" same_attempt_repair "contract"
    ∷ entry "implementation_plan_missing" same_attempt_repair "contract"
    ∷ entry "product_discovery_bootstrap_assessment_missing" same_attempt_repair "contract"
    ∷ entry "product_discovery_bootstrap_assessment_invalid" same_attempt_repair "contract"
    ∷ entry "product_acceptance_criteria_missing" same_attempt_repair "contract"
    ∷ entry "product_acceptance_process_criterion_leaked" same_attempt_repair "contract"
    ∷ entry "product_acceptance_criterion_invalid" same_attempt_repair "contract"
    ∷ entry "product_acceptance_proof_stage_missing" same_attempt_repair "contract"
    ∷ entry "product_acceptance_proof_stage_invalid" same_attempt_repair "contract"
    ∷ entry "product_acceptance_criterion_duplicate" same_attempt_repair "contract"
    ∷ entry "review_not_approved" review_dependent "review"
    ∷ entry "review_contract_invalid" true_retry_semantic "review"
    ∷ entry "product_not_accepted" true_retry_semantic "review"
    ∷ entry "product_review_contract_invalid" true_retry_semantic "review"
    ∷ entry "completion_evidence_missing" true_retry_semantic "contract"
    ∷ entry "completion_contract_conflict" true_retry_semantic "contract"
    ∷ entry "completion_semantic_unproven" true_retry_semantic "contract"
    ∷ entry "completion_validation_failed" true_retry_semantic "contract"
    ∷ entry "context_semantic_dependency_unavailable" true_retry_transient "context-infrastructure"
    ∷ entry "executor_stalled" true_retry_transient "liveness"
    ∷ entry "executor_soft_timeout" true_retry_transient "liveness"
    ∷ entry "executor_timeout" true_retry_transient "liveness"
    ∷ entry "executor_service_failed" true_retry_transient "service"
    ∷ entry "opencode_state_database_locked" true_retry_transient "tooling-infrastructure"
    ∷ entry "executor_exit_nonzero" true_retry_semantic "code"
    ∷ entry "provider_unavailable" true_retry_transient "provider"
    ∷ entry "provider_rate_limited" true_retry_transient "provider"
    ∷ entry "network_error" true_retry_transient "transport"
    ∷ entry "worker_unavailable" true_retry_transient "worker"
    ∷ entry "handoff_missing" true_retry_semantic "contract"
    ∷ entry "handoff_reused_paths_invalid" true_retry_semantic "contract"
    ∷ entry "workspace_ownership_violation" true_retry_semantic "contract"
    ∷ entry "agent_failed" true_retry_semantic "agent"
    ∷ []

abbrev pub transient_categories : List String
transient_categories =
    "context-infrastructure" ∷ "infrastructure" ∷ "tooling-infrastructure" ∷ "provider"
    ∷ "transport" ∷ "liveness" ∷ "worker" ∷ "service" ∷ []

-- A provider's Retry-After: milliseconds (a negative number counts as 0), a date as its time, or a
-- text that is neither.
pub data RetryAfter : Type 0 where
  millis : ℕ → RetryAfter
  date : ℕ → RetryAfter
  unreadable : RetryAfter

pub record Failure : Type 0 where
  pub code : String
  pub retryable : Bool
  pub repair_exhausted : Bool
  pub explicit_disposition : Option Disposition
  pub category : Option String
  pub review_decision : Option String
  pub retry_after : Option RetryAfter

abbrev is_explicit : Disposition → Bool
is_explicit same_attempt_repair = true
is_explicit true_retry_transient = true
is_explicit true_retry_semantic = true
is_explicit terminal = true
is_explicit _ = false

-- The strategies that do not come from the table.
unfoldable pub by_category : Failure → Option Strategy
by_category f =
    if elem (or_else f.category "") transient_categories
    then some (record { disposition = true_retry_transient; category = or_else f.category "" })
    else none

unfoldable pub by_declaration : Failure → Option Strategy
unfolding by_category
by_declaration f = elim f.explicit_disposition [
  | none ↦ by_category f
  | some d ↦
      if is_explicit d
      then some (record { disposition = d; category = or_else f.category "explicit" })
      else by_category f
]

unfoldable pub strategy_for_failure : Failure → Option Strategy
unfolding by_declaration
strategy_for_failure f = elim (lookup (trim f.code) failure_strategies) [
  | some s ↦ some s
  | none ↦ by_declaration f
]

-- The tests on a strategy's disposition.
unfoldable pub disposition_from : Failure → Disposition → Disposition
disposition_from f same_attempt_repair =
    if f.repair_exhausted then true_retry_repair_exhausted else same_attempt_repair
disposition_from f review_dependent =
    if f.repair_exhausted
    then true_retry_repair_exhausted
    else if opt_eq f.review_decision (some "changes_requested")
    then same_attempt_repair
    else true_retry_semantic
disposition_from f d = d

unfoldable pub disposition_by : Failure → Option Strategy → Disposition
unfolding disposition_from
disposition_by f none = unclassified
disposition_by f (some s) = disposition_from f s.disposition

unfoldable pub retry_disposition : Failure → Disposition
unfolding strategy_for_failure disposition_by
retry_disposition f =
    if not f.retryable then terminal else disposition_by f (strategy_for_failure f)

abbrev pub is_repair : Disposition → Bool
is_repair same_attempt_repair = true
is_repair _ = false

-- `configured` is the number of passes in the environment, `none` where it is not a number.
unfoldable pub repair_budget : Failure → Option ℕ → ℕ
unfolding retry_disposition
repair_budget f configured =
    if is_repair (retry_disposition (record f { retryable = true; repair_exhausted = false }))
    then max 1 (min 3 (or_else configured 2))
    else 0

unfoldable pub parse_retry_after : Option RetryAfter → ℕ → Option ℕ
parse_retry_after none now = none
parse_retry_after (some (millis n)) now = some n
parse_retry_after (some (date t)) now = some (t - now)
parse_retry_after (some unreadable) now = none

abbrev pub default_caps : List ℕ
default_caps = 5000 ∷ 15000 ∷ 45000 ∷ 120000 ∷ 300000 ∷ []

-- The configured caps, unless there are none.
abbrev pub caps_of : List ℕ → List ℕ
caps_of [] = default_caps
caps_of (c ∷ cs) = c ∷ cs

-- `caps[Math.min(caps.length - 1, attempt - 1)]`, from the first cap on.
abbrev pub cap_at : ℕ → List ℕ → ℕ → ℕ
cap_at c [] i = c
cap_at c (d ∷ ds) zero = c
cap_at c (d ∷ ds) (suc i) = cap_at d ds i

abbrev pub cap_for : List ℕ → ℕ → ℕ
cap_for [] attempt = 0
cap_for (c ∷ cs) attempt = cap_at c cs (attempt - 1)

-- The full jitter: a random number from 0 up to 1, in units of 10⁻¹² and below 1 as in the code.
unfoldable pub jitter : ℕ → ℕ → ℕ
jitter draw cap = min draw 999999999999 * (cap + 1) / 1000000000000

-- The tests of `retryDelayForFailure` on the disposition.
unfoldable pub delay_under : Disposition → ℕ → ℕ → ℕ
delay_under true_retry_transient local asked = max local asked
delay_under _ local asked = 0

unfoldable pub retry_delay : Failure → List ℕ → ℕ → ℕ → ℕ → ℕ
unfolding retry_disposition delay_under parse_retry_after jitter
retry_delay f caps attempt draw now =
    delay_under (retry_disposition f) (jitter draw (cap_for (caps_of caps) attempt))
      (or_else (parse_retry_after f.retry_after now) 0)

pub record Limits : Type 0 where
  pub max_elapsed_ms : ℕ
  pub max_cumulative_backoff_ms : ℕ

-- The limits in the environment, with their defaults and lower bounds.
unfoldable pub budget_limits : Option ℕ → Option ℕ → Limits
budget_limits elapsed backoff = record {
  max_elapsed_ms = max 1000 (or_else elapsed 900000);
  max_cumulative_backoff_ms = or_else backoff 300000;
}

-- What the budget reads of an event: its task, its time if it is a date, and the delay of a
-- `retry.backoff_applied` (0 where the payload has none).
pub record BudgetEvent : Type 0 where
  pub task_id : Option String
  pub created : Option ℕ
  pub event_type : String
  pub retry_after_ms : ℕ

pub record BudgetState : Type 0 where
  pub elapsed_ms : ℕ
  pub cumulative_backoff_ms : ℕ

-- A task's budget reads the events of that task, and a run's all events.
abbrev pub in_scope : Option String → BudgetEvent → Bool
in_scope none e = true
in_scope (some task_id) e = not (is_truthy task_id) || opt_eq e.task_id (some task_id)

abbrev backoff_of : BudgetEvent → ℕ
backoff_of e = if e.event_type =ₛ "retry.backoff_applied" then e.retry_after_ms else 0

unfoldable pub cumulative_backoff : Option String → List BudgetEvent → ℕ
cumulative_backoff task_id [] = 0
cumulative_backoff task_id (e ∷ es) =
    (if in_scope task_id e then backoff_of e else 0) + cumulative_backoff task_id es

abbrev earlier : Option ℕ → Option ℕ → Option ℕ
earlier none b = b
earlier (some a) none = some a
earlier (some a) (some b) = some (min a b)

unfoldable pub first_observed : Option String → Option ℕ → List BudgetEvent → Option ℕ
first_observed task_id first [] = first
first_observed task_id first (e ∷ es) =
    first_observed task_id (if in_scope task_id e then earlier first e.created else first) es

-- `Number(startedAtMs ?? 0) || null`
abbrev started_of : Option ℕ → Option ℕ
started_of none = none
started_of (some zero) = none
started_of (some (suc n)) = some (suc n)

abbrev elapsed_since : Option ℕ → ℕ → ℕ
elapsed_since none now = 0
elapsed_since (some t) now = now - t

unfoldable pub derive_budget_state : List BudgetEvent → Option String → Option ℕ → ℕ → BudgetState
unfolding cumulative_backoff first_observed
derive_budget_state events task_id started now = record {
  elapsed_ms = elapsed_since (first_observed task_id (started_of started) events) now;
  cumulative_backoff_ms = cumulative_backoff task_id events;
}

pub record Verdict : Type 0 where
  pub allowed : Bool
  pub elapsed_ms : ℕ
  pub cumulative_backoff_ms : ℕ
  pub retry_after_ms : ℕ
  pub remaining_elapsed_ms : ℕ
  pub remaining_backoff_ms : ℕ

unfoldable pub evaluate_budget : BudgetState → ℕ → Limits → Verdict
evaluate_budget b delay limits =
    let remaining_elapsed = limits.max_elapsed_ms - b.elapsed_ms in
    let remaining_backoff = limits.max_cumulative_backoff_ms - b.cumulative_backoff_ms in
    record {
      allowed =
          ltb b.elapsed_ms limits.max_elapsed_ms
          && leb b.cumulative_backoff_ms limits.max_cumulative_backoff_ms
          && leb delay remaining_elapsed
          && leb delay remaining_backoff;
      elapsed_ms = b.elapsed_ms;
      cumulative_backoff_ms = b.cumulative_backoff_ms;
      retry_after_ms = delay;
      remaining_elapsed_ms = remaining_elapsed;
      remaining_backoff_ms = remaining_backoff;
    }

pub record Efficiency : Type 0 where
  pub disposition : Disposition
  pub retry_after_ms : ℕ
  pub repair_budget : ℕ
  pub backoff_applied : Bool
  pub same_attempt_repair_preferred : Bool
  pub classification_known : Bool
  pub retry_budget : Verdict

abbrev pub is_classified : Disposition → Bool
is_classified unclassified = false
is_classified _ = true

-- What the environment and the clock give to an evaluation.
pub record Surroundings : Type 0 where
  pub caps : List ℕ
  pub draw : ℕ
  pub now : ℕ
  pub repair_passes : Option ℕ
  pub limits : Limits

unfoldable pub efficiency_details : Failure → ℕ → BudgetState → Surroundings → Efficiency
unfolding retry_delay repair_budget evaluate_budget
efficiency_details f attempt b env =
    let delay = retry_delay f env.caps attempt env.draw env.now in
    record {
      disposition = retry_disposition f;
      retry_after_ms = delay;
      repair_budget = repair_budget f env.repair_passes;
      backoff_applied = ltb 0 delay;
      same_attempt_repair_preferred = is_repair (retry_disposition f);
      classification_known = is_classified (retry_disposition f);
      retry_budget = evaluate_budget b delay env.limits;
    }
