-- ===== src/Examples/Graphs.antt =====
-- The search for cycles, the decision on a plan and the cascade of failed dependencies.
use agentic_harness.Base.{
  String, ◌≡◌, refl, ◌↔◌, Bool, true, none, some, [], ◌∷◌, arith, Dict, List, sort_by, unique,
}
use agentic_harness.Graph.{Arc, Order, search}
use agentic_harness.Graph.Acyclic.{IsOutcome, search-IsOutcome}
use agentic_harness.Graph.Degrees.{count-sort_by}
use agentic_harness.Rows.{Task}
use agentic_harness.Policy.{Decision, default_document}
use agentic_harness.Policy.Plan.{PlanEdge, Binding, PlanInput, ends, plan_degrees, evaluate_plan}
use agentic_harness.Policy.PlanVerdict.{IsAuthorized, plan-IsGraph, evaluate_plan_iff}
use agentic_harness.Review.{Edge}
use agentic_harness.Review.Cycles.{
  Checked, IsVerdict, assert_acyclic, selected_arcs, assert_acyclic-IsVerdict,
}
use agentic_harness.Store.Monad.{Store}
use agentic_harness.Store.History.{empty}
use agentic_harness.Scheduler.Cascade.{cascade}
use agentic_harness.Scheduler.Ending.{IsSettled, cascade-IsSettled}
use agentic_harness.Examples.Data.{host, task}

abbrev by_units : String → String → Bool
by_units a b = true

abbrev there_and_back : List Arc
there_and_back =
    record { source = "architecture-review"; target = "database-review" }
    ∷ record { source = "database-review"; target = "architecture-review" }
    ∷ []

search-IsOutcome_example :
    (o : Order) × (search
        (sort_by by_units)
        there_and_back
        (unique (ends there_and_back))
        (plan_degrees there_and_back [])
      ≡ some o)
    × IsOutcome there_and_back o
search-IsOutcome_example =
    search-IsOutcome (sort_by by_units) (count-sort_by by_units) there_and_back
      (unique (ends there_and_back)) (plan_degrees there_and_back []) (plan-IsGraph there_and_back)

abbrev plan_edge : PlanEdge
plan_edge = record {
  from_stage = some "architecture-review";
  to_stage = some "database-review";
  from_task_id = none;
  to_task_id = none;
}

abbrev binding : Binding
binding = record {
  fact_id = "fact";
  status = some "unresolved-review-input";
  provider_capability_id = some "capability";
  provider_task_id = none;
  consumer_task_id = none;
}

abbrev plan_input : PlanInput
plan_input = record {
  phase = some "bootstrap";
  bindings = binding ∷ [];
  dependencies = plan_edge ∷ [];
  topology_state = some "provisional";
}

evaluate_plan_iff_example :
    (d : Decision) × (evaluate_plan by_units default_document.plan plan_input ≡ some d)
    × (d.allowed ≡ true ↔ IsAuthorized default_document.plan plan_input)
evaluate_plan_iff_example = evaluate_plan_iff by_units default_document.plan plan_input

abbrev review_edge : Edge
review_edge = record {
  from_stage = "architecture-review";
  to_stage = "database-review";
  required_decision = "state";
  rationale = "authority";
  provenance = "reasoning";
}

assert_acyclic-IsVerdict_example :
    (c : Checked) × (assert_acyclic by_units
        (review_edge ∷ [])
        ("architecture-review" ∷ "database-review" ∷ [])
      ≡ some c)
    × IsVerdict
        (selected_arcs (unique ("architecture-review" ∷ "database-review" ∷ [])) (review_edge ∷ []))
        c
assert_acyclic-IsVerdict_example =
    assert_acyclic-IsVerdict by_units (review_edge ∷ [])
      ("architecture-review" ∷ "database-review" ∷ [])

-- The first task has failed, the second one depends on it and the third one on the second.
abbrev failing : Dict Task
failing =
    ("first", record task { task_id = "first"; status = "failed" })
    ∷ ("second", record task { task_id = "second"; dependencies = "first" ∷ [] })
    ∷ ("third", record task { task_id = "third"; dependencies = "second" ∷ [] })
    ∷ []

abbrev failing_store : Store
failing_store = record empty { tasks = failing }

cascade-IsSettled_example :
    (t : Store) × (cascade host "run" (λ id. "2026-01-02") 2 failing_store ≡ some t)
    × IsSettled (λ id. "2026-01-02") "run" failing t.tasks
cascade-IsSettled_example =
    cascade-IsSettled (λ id. "2026-01-02") "run" host 2 failing_store
      (refl, refl, (refl, refl, (refl, refl, tt))) (omega arith)
