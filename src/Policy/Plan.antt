-- ===== src/Policy/Plan.antt =====
-- .agents/runtime/policy-engine.mjs: the decision on a plan, with its search for cycles. A missing
-- text of a binding or an edge is `none`; the order of UTF-16 code units that `sort` uses is a
-- parameter.
use agentic_harness.Base.{
  ℕ, ◌+◌, String, Bool, true, not, ◌&&◌, ◌||◌, Option, none, some, List, [], ◌∷◌, keep, length, ltb,
  elem, opt_eq, or_else, ◌=ₛ◌, is_truthy, trim, unique, sort_by, Dict, put, if◌then◌else◌,
}
use agentic_harness.Graph.{Arc, Order, complete, stuck, degree, search}
use agentic_harness.Policy.{PlanRules, Decision, allow, deny}

pub record PlanEdge : Type 0 where
  pub from_stage : Option String
  pub to_stage : Option String
  pub from_task_id : Option String
  pub to_task_id : Option String

pub record Binding : Type 0 where
  pub fact_id : String
  pub status : Option String
  pub provider_capability_id : Option String
  pub provider_task_id : Option String
  pub consumer_task_id : Option String

pub record PlanInput : Type 0 where
  pub phase : Option String
  pub bindings : List Binding
  pub dependencies : List PlanEdge
  pub topology_state : Option String

-- `String(stage ?? "").trim()`
abbrev pub stage_name : Option String → String
stage_name stage = trim (or_else stage "")

-- The edges that the first loop of `cyclicReviewStages` does not skip.
unfoldable pub plan_arcs : List PlanEdge → List Arc
unfolding trim
plan_arcs [] = []
plan_arcs (e ∷ es) =
    let rest = plan_arcs es in
    let a : Arc = record { source = stage_name e.from_stage; target = stage_name e.to_stage } in
    if is_truthy a.source && is_truthy a.target then a ∷ rest else rest

-- The stages that the loop adds to its set, in order.
abbrev pub ends : List Arc → List String
ends [] = []
ends (a ∷ arcs) = a.source ∷ a.target ∷ ends arcs

-- What the loop writes to `indegree`.
unfoldable pub plan_degrees : List Arc → Dict ℕ → Dict ℕ
plan_degrees [] d = d
plan_degrees (a ∷ arcs) d =
    let from = put a.source (degree d a.source) d in
    plan_degrees arcs (put a.target (degree from a.target + 1) from)

module _ (by_units : String → String → Bool) where
  abbrev pub sorted_left : Option Order → Option (List String)
  sorted_left none = none
  sorted_left (some complete) = some []
  sorted_left (some (stuck left)) = some (sort_by by_units left)

  -- `cyclicReviewStages`; `none` would be a search that runs out of fuel.
  unfoldable pub cyclic_review_stages : List PlanEdge → Option (List String)
  unfolding plan_arcs plan_degrees
  cyclic_review_stages es =
      let arcs = plan_arcs es in
      sorted_left (search (sort_by by_units) arcs (unique (ends arcs)) (plan_degrees arcs []))

-- A text that is there and not empty.
abbrev pub is_given : Option String → Bool
is_given t = is_truthy (or_else t "")

abbrev pub is_self_edge : PlanEdge → Bool
is_self_edge e = opt_eq e.from_stage e.to_stage

abbrev pub awaits_review : Binding → Bool
awaits_review b = opt_eq b.status (some "unresolved-review-input")

abbrev pub is_unresolved : Binding → Bool
is_unresolved b =
    if opt_eq b.status (some "unresolved")
    then true
    else awaits_review b && not (is_given b.provider_capability_id)

abbrev pub is_unmaterialized : Binding → Bool
is_unmaterialized b =
    not (is_given b.consumer_task_id) || awaits_review b && not (is_given b.provider_task_id)

abbrev pub is_loose : PlanEdge → Bool
is_loose e = not (is_given e.from_task_id) || not (is_given e.to_task_id)

-- `list.filter(test).length > 0`
abbrev pub has_some {ℓ} : {A : Type ℓ} → (A → Bool) → List A → Bool
has_some p xs = ltb 0 (length (keep p xs))

-- The checks that follow the search for cycles.
unfoldable pub evaluate_facts : PlanInput → Decision
evaluate_facts i =
    if has_some is_unresolved i.bindings
    then deny "plan" "policy_plan_unresolved_facts" "plan.fact-resolution"
    else if or_else i.topology_state "refined" =ₛ "refined" && has_some is_unmaterialized i.bindings
    then deny "plan" "policy_plan_unmaterialized_facts" "plan.fact-materialization"
    else if or_else i.topology_state "refined" =ₛ "refined" && has_some is_loose i.dependencies
    then deny "plan" "policy_plan_unmaterialized_edges" "plan.review-materialization"
    else allow "plan" "plan.bootstrap-authorized"

abbrev pub after_search : PlanInput → Option (List String) → Option Decision
after_search i none = none
after_search i (some []) = some (evaluate_facts i)
after_search i (some (stage ∷ stages)) =
    some (deny "plan" "policy_plan_cycle" "plan.review-topology")

-- `evaluatePlan`
unfoldable pub evaluate_plan : (String → String → Bool) → PlanRules → PlanInput → Option Decision
unfolding evaluate_facts cyclic_review_stages
evaluate_plan by_units rules i =
    if not (opt_eq i.phase (some rules.required_phase))
    then some (deny "plan" "policy_plan_phase_invalid" "plan.phase")
    else if not (elem (or_else i.topology_state "refined") ("provisional" ∷ "refined" ∷ []))
    then some (deny "plan" "policy_plan_topology_state_invalid" "plan.topology-state")
    else if has_some is_self_edge i.dependencies
    then some (deny "plan" "policy_plan_self_dependency" "plan.review-topology")
    else after_search i (cyclic_review_stages by_units i.dependencies)
