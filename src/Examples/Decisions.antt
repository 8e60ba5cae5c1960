-- ===== src/Examples/Decisions.antt =====
-- Decisions of the policy, the retries and the scheduler.
use agentic_harness.Base.{
  leb, if◌then◌else◌, ◌+◌, ◌-◌, ◌<◌, ◌≤◌, ◌≡◌, ◌≢◌, ◌↔◌, refl, true, false, none, some, [], ◌∷◌,
  arith, All, is_space, trim, trim_start, trim_end, keep, length, min, max, is_truthy, or_else,
  lookup, ◌=ₛ◌,
}
use agentic_harness.Contracts.{Envelope, assert_envelope}
use agentic_harness.Contracts.Envelopes.{IsAddressed, assert_envelope_iff}
use agentic_harness.Scheduler.{Locale, is_ready, select_ready, state_map}
use agentic_harness.Scheduler.Dispatch.{
  select_ready-fills-capacity, select_ready-dispatched, MayDispatch, count_active,
}
use agentic_harness.Policy.{
  DispatchInput, PromotionInput, default_document, evaluate_retry, retry_verdict,
}
use agentic_harness.Policy.Verdicts.{evaluate_retry_allows}
use agentic_harness.Retry.{
  Failure, Limits, BudgetState, Surroundings, retry_delay, retry_disposition, strategy_for_failure,
  by_declaration, by_category, disposition_by, disposition_from, true_retry_transient,
  same_attempt_repair, unclassified, repair_budget, evaluate_budget, cumulative_backoff,
  derive_budget_state, first_observed, efficiency_details, delay_under, parse_retry_after,
  default_caps, jitter, failure_strategies,
}
use agentic_harness.Retry.Budget.{fresh, backoff, backoff_event, backoff_stays_in_budget}
use agentic_harness.Retry.Delay.{retry_delay_bounds}
use agentic_harness.Liveness.{Quotient, LivenessPolicy, resolve_liveness_policy, bounded_positive}
use agentic_harness.Liveness.Timeouts.{IsTimed, is_governance, resolve_liveness_policy-nested}
use agentic_harness.Parking.{ParkStatus, observation_disposition, origin_of}
use agentic_harness.Parking.Denial.{observation_disposition_iff, is_denied, is_waiting}
use agentic_harness.Topology.{
  Agent, ExecutionTopology, topology, validate_registry_topology, topology_for_agent,
  resolve_task_topology,
}
use agentic_harness.Topology.Roles.{topology-roundtrip}
use agentic_harness.Review.{
  Review, Brief, is_sdd_review_stage, validate_review_contract, required_review_decision,
  positive_integer, Edge, edge_key, compact_edge, normalize_from, normalize_review_dependencies,
}
use agentic_harness.Review.Accepted.{IsConsistent, validate_review_contract_sound}
use agentic_harness.Review.Edges.{IsEdge, IsFresh, normalize_review_dependencies_sound}
use agentic_harness.Examples.Data.{task}

abbrev reconcile : Envelope
reconcile = record {
  schema_version = "agent-runtime-envelope/v1";
  kind = "agent.run.reconcile.v1";
  message_id = "m";
  run_id = "run";
  task_id = "";
  dispatch_generation = some 0;
  continuation_id = "";
  delivery_id = "";
  effect_key = "";
}

assert_envelope_iff_example : (assert_envelope reconcile ≡ none) ↔ IsAddressed reconcile
assert_envelope_iff_example = assert_envelope_iff reconcile

abbrev locale : Locale
locale = record { parse_date = λ s. none; not_after = λ a b. true }

select_ready-fills-capacity_example :
    let s = select_ready locale (task ∷ task ∷ []) 1 0 in
    (s.active ≡ count_active (task ∷ task ∷ []))
    × (length s.ready + s.active ≤ max 1 s.active)
    × (length s.ready
        ≡ min
            (1 - count_active (task ∷ task ∷ []))
            (length (keep (is_ready locale (state_map (task ∷ task ∷ [])) 0) (task ∷ task ∷ []))))
select_ready-fills-capacity_example = select_ready-fills-capacity locale (task ∷ task ∷ []) 1 0

select_ready-dispatched_example :
    All
      (MayDispatch locale (task ∷ task ∷ []) 1 0 "running")
      (select_ready locale (task ∷ task ∷ []) 1 0).ready
select_ready-dispatched_example =
    select_ready-dispatched locale (task ∷ task ∷ []) 1 0 "running" refl

abbrev dispatchable : DispatchInput
dispatchable = record {
  run_status = "running";
  task_status = "routed";
  dependencies_satisfied = true;
  retry_window_open = true;
  topology_ready = false;
}

abbrev promotable : PromotionInput
promotable = record {
  qa_accepted = true;
  readiness_accepted = false;
  readiness_required = false;
  product_acceptance_accepted = true;
  blocking_failures = 0;
}

abbrev transient : Failure
transient = record {
  code = "executor_failed";
  retryable = true;
  repair_exhausted = false;
  explicit_disposition = some true_retry_transient;
  category = none;
  review_decision = none;
  retry_after = none;
}

abbrev limits : Limits
limits = record { max_elapsed_ms = 900000; max_cumulative_backoff_ms = 300000 }

abbrev unused : BudgetState
unused = record { elapsed_ms = 0; cumulative_backoff_ms = 0 }

abbrev surroundings : Surroundings
surroundings = record {
  caps = default_caps;
  draw = 0;
  now = 0;
  repair_passes = none;
  limits = limits;
}

evaluate_retry_allows_example :
    let d = evaluate_retry default_document.retry transient 1 3 unused surroundings in
    let delay = retry_delay transient default_caps 1 0 0 in
    (transient.retryable ≡ true)
    × (1 < 3)
    × (retry_disposition transient ≢ unclassified)
    × (retry_disposition transient ≢ same_attempt_repair)
    × (0 + delay ≤ 900000)
    × (0 + delay ≤ 300000)
    × (d.retry_after_ms ≡ some delay)
unfolding evaluate_retry retry_verdict efficiency_details retry_disposition strategy_for_failure
    by_declaration by_category disposition_by disposition_from failure_strategies lookup trim
    trim_start trim_end is_space repair_budget evaluate_budget retry_delay delay_under
    parse_retry_after jitter
evaluate_retry_allows_example = evaluate_retry_allows transient 1 3 unused surroundings refl

backoff_stays_in_budget_example :
    cumulative_backoff (some "task") (backoff_event "task" 0 5000 ∷ []) ≤ 300000
unfolding derive_budget_state cumulative_backoff evaluate_budget first_observed
backoff_stays_in_budget_example =
    backoff_stays_in_budget "task" none limits (backoff_event "task" 0 5000 ∷ []) refl
      (backoff 0 0 5000 (fresh refl) refl refl)

retry_delay_bounds_example :
    let delay = retry_delay transient default_caps 1 0 0 in
    let asked = or_else (parse_retry_after transient.retry_after 0) 0 in
    (retry_disposition transient ≢ true_retry_transient → delay ≡ 0)
    × (retry_disposition transient ≡ true_retry_transient → asked ≤ delay)
    × (delay ≤ max 300000 asked)
retry_delay_bounds_example =
    retry_delay_bounds transient default_caps 1 0 0 300000
      (omega arith, (omega arith, (omega arith, (omega arith, (omega arith, tt)))))

-- 20 minutes and a half of a millisecond.
abbrev twenty_minutes : Quotient
twenty_minutes = record { numerator = 2400001; divisor = 1 }

abbrev reviewed_policy : LivenessPolicy
reviewed_policy =
    resolve_liveness_policy (λ s. false) "technical-refinement" 1 (some twenty_minutes)

resolve_liveness_policy-nested_example :
    (reviewed_policy.hard_timeout_ms ≡ bounded_positive (some twenty_minutes) 3600000)
    × IsTimed
        (is_governance (λ s. false) "technical-refinement")
        (if leb 1 1 then 1800000 else 2700000)
        reviewed_policy
resolve_liveness_policy-nested_example =
    resolve_liveness_policy-nested (λ s. false) "technical-refinement" 1 (some twenty_minutes)

abbrev parked : ParkStatus
parked = record {
  run_id = "run";
  run_status = "running";
  has_continuation = true;
  phase = "waiting-for-run-terminal";
  current_delivery_status = "";
}

observation_disposition_iff_example :
    (is_denied (λ s. s) (observation_disposition (λ s. s) none parked "") ≡ true)
    ↔ (is_truthy (trim "run") ≡ true)
      × (true ≡ true)
      × (is_waiting (λ s. s) parked ≡ true)
      × ((origin_of (λ s. s) "" =ₛ "explicit-human-turn") ≡ false)
observation_disposition_iff_example = observation_disposition_iff (λ s. s) none parked ""

abbrev writer : Agent
writer = record { id = "writer"; orchestration_role = "specialist"; interactive_mode = "subagent" }

topology-roundtrip_example :
    (t : ExecutionTopology) × (topology_for_agent writer ≡ topology t)
    × (resolve_task_topology (some t) ≡ topology t)
unfolding validate_registry_topology
topology-roundtrip_example = topology-roundtrip writer "main" refl

abbrev brief : Brief
brief = record {
  stage = some "quality-assurance";
  role = none;
  agent_id = "qa";
  reviewed_revision = none;
}

abbrev review : Review
review = record {
  role = "qa";
  stage = "quality-assurance";
  reviewed_revision = 1;
  decision = "approved";
  required_deltas = some [];
  next_role = some none;
}

validate_review_contract_sound_example :
    (r : Review) × (some review ≡ some r) × IsConsistent brief "quality-assurance" r
unfolding validate_review_contract is_sdd_review_stage required_review_decision positive_integer
    trim trim_start trim_end is_space
validate_review_contract_sound_example =
    validate_review_contract_sound (λ s. false) brief (some review) refl refl

abbrev edge : Edge
edge = record {
  from_stage = "a-review";
  to_stage = "b-review";
  required_decision = "topology";
  rationale = "needed";
  provenance = "reasoning";
}

normalize_review_dependencies_sound_example :
    All (IsEdge (λ s. true)) (edge ∷ []) × IsFresh [] (edge ∷ [])
unfolding normalize_review_dependencies normalize_from compact_edge edge_key trim trim_start
    trim_end is_space
normalize_review_dependencies_sound_example =
    normalize_review_dependencies_sound (λ s. true) (edge ∷ edge ∷ []) (edge ∷ []) "reasoning" refl
