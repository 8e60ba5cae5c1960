-- ===== src/Compiler/Staging.antt =====
-- What the tasks of a compiled plan wait for.
use agentic_harness.Base.{
  elem-append, String, ◌≡◌, refl, subst, ◌∙◌, Bool, true, false, not, Option, none, some, List, [],
  ◌∷◌, ◌++◌, Dict, elem, unique, length, ltb, All, arith, eq_refl, if◌then◌else◌, Bool-cases,
  Option-cases, inl, inr,
}
use agentic_harness.Compiler.{Criterion, ImplementationPlan, Agent, Tools, registry_agent, template}
use agentic_harness.Compiler.Criteria.{canonicalize, implementation_criteria}
use agentic_harness.Compiler.Checks.{Options}
use agentic_harness.Compiler.Inspection.{Inspection, inspect, criterion_ids}
use agentic_harness.Compiler.Fit.{IsPlanFit, inspect-IsPlanFit}
use agentic_harness.Compiler.Passed.{IsPassed, inspect-IsPassed}
use agentic_harness.Compiler.Tasks.{
  CompiledTask, Outcome, returned, refused, implementation_tasks, verification_task,
}
use agentic_harness.Compiler.Compile.{
  BootstrapPlan, Compiled, Surroundings, Area, areas, task_of_stage, area_task, with_readiness,
  readiness_tasks, qa_task, evidence_tasks, acceptance_task, separated, merged, with_acceptance,
  with_agents, with_tasks, with_inspection, compile_plan, compile_dag,
}
use agentic_harness.Compiler.Dependencies.{
  elem-unique, task_ids, among_tasks, AreTasksOf, returned-injective, past_refusal, tasks_of_items,
}

no_issues : (xs : List String) → ltb 0 (length xs) ≡ false → xs ≡ []
no_issues [] h = refl
no_issues (x ∷ xs) h = absurd (ground arith)

past_acceptance :
    {A : Type 0} (b : Bool) (e : String) (x a : A)
    → (if b then returned x else refused e) ≡ returned a
    → x ≡ a
past_acceptance true e x a h = returned-injective x a h
past_acceptance false e x a h = absurd (cc h)

-- The tasks that a compilation adds, and what they wait for.
pub record IsStaged (plan : BootstrapPlan) (implementation : ImplementationPlan) (c : Compiled)
    : Type 0 where
  pub work :
      AreTasksOf plan.run_id plan.technical_lead_task_id implementation.work_items c.implementation
  pub lead_first : elem plan.technical_lead_task_id c.qa.dependencies ≡ true
  pub proven : All (λ (t : CompiledTask). elem t.task_id c.qa.dependencies ≡ true) c.implementation
  pub made_ready : All (λ (t : CompiledTask). elem c.qa.task_id t.dependencies ≡ true) c.readiness
  pub qa_accepted : elem c.qa.task_id c.acceptance.dependencies ≡ true
  pub ready_accepted :
      All (λ (t : CompiledTask). elem t.task_id c.acceptance.dependencies ≡ true) c.readiness

module _ (plan : BootstrapPlan) where
  waits_for_qa :
      (area : Area) (qa_id : String) (a : Agent)
      → elem qa_id (area_task plan area qa_id a).dependencies ≡ true
  unfolding verification_task
  waits_for_qa area qa_id a =
      let ids = qa_id ∷ task_of_stage plan area.review_stage in
      elem-unique qa_id (unique ids) ∙ elem-unique qa_id ids ∙ ground (arith, eq_refl qa_id)

  readiness_waits :
      (qa_id : String) (required : List Area) (tasks : List CompiledTask)
      → readiness_tasks plan qa_id required ≡ returned tasks
      → All (λ (t : CompiledTask). elem qa_id t.dependencies ≡ true) tasks
  unfolding readiness_tasks
  readiness_waits qa_id [] tasks h =
      subst (All (λ (t : CompiledTask). elem qa_id t.dependencies ≡ true))
        (returned-injective [] tasks h) tt
  readiness_waits qa_id (area ∷ required) tasks h = elim (Bool-cases area.required) [
    | inr spared ↦ readiness_waits qa_id required tasks (rw spared at h)
    | inl needed ↦ elim (Option-cases area.agent) [
      | inl missing ↦ absurd (cc (rw (needed, missing) at h))
      | inr (a, there) ↦
          let (ts, e, same) =
            readied plan (area_task plan area qa_id a) (readiness_tasks plan qa_id required) tasks
              (rw (needed, there) at h) in
          subst (All (λ (t : CompiledTask). elem qa_id t.dependencies ≡ true)) same
            (waits_for_qa area qa_id a, readiness_waits qa_id required ts e)
    ]
  ]
    where
      readied :
          (plan : BootstrapPlan) (t : CompiledTask) (rest : Outcome (List CompiledTask))
          (tasks : List CompiledTask)
          → with_readiness plan t rest ≡ returned tasks
          → (ts : List CompiledTask) × (rest ≡ returned ts) × (t ∷ ts ≡ tasks)
      readied plan t (refused e) tasks h = absurd (cc h)
      readied plan t (returned ts) tasks h = (ts, refl, returned-injective (t ∷ ts) tasks h)

  qa_waits :
      (tools : Tools) (a : Agent) (implementation : ImplementationPlan) (tasks : List CompiledTask)
      → let qa = qa_task plan tools a implementation tasks in
        (elem plan.technical_lead_task_id qa.dependencies ≡ true)
        × All (λ (t : CompiledTask). elem t.task_id qa.dependencies ≡ true) tasks
  unfolding qa_task verification_task
  qa_waits tools a implementation tasks =
      let lead = plan.technical_lead_task_id in
      let evidence = evidence_tasks plan plan.tasks in
      let ids = evidence ++ lead ∷ task_ids tasks in
      (
        elem-unique lead ids
            ∙ ground (arith, elem-append lead evidence (lead ∷ task_ids tasks), eq_refl lead),
        among_tasks tasks (unique ids) (λ x h.
            elem-unique x ids ∙ ground (arith, elem-append x evidence (lead ∷ task_ids tasks), h)),
      )

  acceptance_waits :
      (a : Agent) (implementation : ImplementationPlan) (qa : CompiledTask)
      (readiness : List CompiledTask)
      → let acceptance = acceptance_task plan a implementation qa readiness in
        (elem qa.task_id acceptance.dependencies ≡ true)
        × All (λ (t : CompiledTask). elem t.task_id acceptance.dependencies ≡ true) readiness
  unfolding acceptance_task verification_task
  acceptance_waits a implementation qa readiness =
      let ids = qa.task_id ∷ task_ids readiness in
      (
        elem-unique qa.task_id (unique ids)
            ∙ elem-unique qa.task_id ids
            ∙ ground (arith, eq_refl qa.task_id),
        among_tasks readiness (unique (unique ids))
            (λ x h. elem-unique x (unique ids) ∙ elem-unique x ids ∙ ground (arith, h)),
      )

  module _ (env : Surroundings) (agents : List Agent) (implementation : ImplementationPlan) where
    staged :
        (tasks : List CompiledTask) (a owner : Agent) (paths : Dict String)
        (readiness : Outcome (List CompiledTask)) (c : Compiled)
        → AreTasksOf plan.run_id plan.technical_lead_task_id implementation.work_items tasks
        → let qa = qa_task plan env.tools a implementation tasks in
          ((rs : List CompiledTask)
            → readiness ≡ returned rs
            → All (λ (t : CompiledTask). elem qa.task_id t.dependencies ≡ true) rs)
          → with_acceptance plan env agents implementation tasks qa owner paths readiness
            ≡ returned c
          → IsStaged plan implementation c
    staged tasks a owner paths (refused e) c work waits h = absurd (cc h)
    staged tasks a owner paths (returned rs) c work waits h =
        let qa = qa_task plan env.tools a implementation tasks in
        let made : Compiled = record {
          implementation = tasks;
          qa = qa;
          readiness = rs;
          acceptance = acceptance_task plan owner implementation qa rs;
          shared_path_owner = merged plan.shared_path_owner paths;
        } in
        let (lead, proven) = qa_waits env.tools a implementation tasks in
        let (accepted, ready) = acceptance_waits owner implementation qa rs in
        subst (IsStaged plan implementation)
          (past_acceptance (env.accepts_compiled made) "executionPlan" made c h)
          (record {
            work = work;
            lead_first = lead;
            proven = proven;
            made_ready = waits rs refl;
            qa_accepted = accepted;
            ready_accepted = ready;
          })

    with_agents-IsStaged :
        (tasks : List CompiledTask) (paths : Dict String) (qa owner : Option Agent) (c : Compiled)
        → AreTasksOf plan.run_id plan.technical_lead_task_id implementation.work_items tasks
        → with_agents plan env agents implementation tasks paths qa owner ≡ returned c
        → IsStaged plan implementation c
    with_agents-IsStaged tasks paths (some a) (some owner) c work h =
        let qa = qa_task plan env.tools a implementation tasks in
        let required = areas plan env.tools agents implementation.acceptance_criteria in
        staged tasks a owner paths (readiness_tasks plan qa.task_id required) c work
          (λ rs e. readiness_waits qa.task_id required rs e) h
    with_agents-IsStaged tasks paths none owner c work h = absurd (cc h)
    with_agents-IsStaged tasks paths (some a) none c work h = absurd (cc h)

    with_tasks-IsStaged :
        (paths : Dict String) (tasks : Outcome (List CompiledTask)) (c : Compiled)
        → ((ts : List CompiledTask)
            → tasks ≡ returned ts
            → AreTasksOf plan.run_id plan.technical_lead_task_id implementation.work_items ts)
        → with_tasks plan env agents implementation paths tasks ≡ returned c
        → IsStaged plan implementation c
    with_tasks-IsStaged paths (refused e) c work h = absurd (cc h)
    with_tasks-IsStaged paths (returned ts) c work h =
        with_agents-IsStaged ts paths (registry_agent agents plan.quality_agent_id)
          (registry_agent agents "product-owner") c (work ts refl) h

    -- The inspection has given a result without issues: none of its checks has raised one.
    abbrev pub IsClean : Options → Type 0
    IsClean o =
        ((x : Inspection env.tools) × (inspect env.tools agents o implementation ≡ some x)
          × (x.issues ≡ []))
        × IsPassed env.tools agents o implementation

    abbrev pub IsCompiled : Compiled → Type 0
    IsCompiled c =
        let o : Options = record { focused = env.directive plan.request; catalog = none } in
        IsPlanFit env.tools agents o implementation × IsStaged plan implementation c × IsClean o

    pub compile_plan-IsCompiled :
        (c : Compiled) → compile_plan plan env agents implementation ≡ returned c → IsCompiled c
    unfolding compile_plan
    compile_plan-IsCompiled c h =
        let o : Options = record { focused = env.directive plan.request; catalog = none } in
        let criteria = implementation.acceptance_criteria in
        let ids = criterion_ids (implementation_criteria env.tools criteria) in
        let (x, e, fit) = inspect-IsPlanFit env.tools agents o implementation in
        let (_, h₁) =
          past_refusal (not (env.accepts_plan implementation)) "implementationPlan"
            (with_inspection plan env agents implementation
              (inspect env.tools agents o implementation))
            c h in
        let (clean, h₂) =
          past_refusal (ltb 0 (length x.issues))
            (template ("implementation_plan_validation_failed:" ∷ separated x.issues))
            (with_tasks plan env agents implementation x.claims.owners (
              implementation_tasks plan.run_id plan.technical_lead_task_id agents criteria ids
                implementation.work_items))
            c (rw e at h₁) in
        let none_raised = no_issues x.issues clean in
        (
          fit none_raised,
          with_tasks-IsStaged x.claims.owners
              (implementation_tasks plan.run_id plan.technical_lead_task_id agents criteria ids
                implementation.work_items)
              c
              (λ ts made.
                tasks_of_items plan.run_id plan.technical_lead_task_id agents criteria ids
                  implementation.work_items ts made)
              h₂,
          ((x, e, none_raised), inspect-IsPassed env.tools agents o implementation x e none_raised),
        )

-- A compilation that returns was given a plan. The inspection of that plan, with the criteria that
-- the Product Owner requires, has given a result without issues, and none of its checks has one: on
-- duplicate criteria, and for each item on its identifier, commands, projections, scopes, owner,
-- paths, reuse and criteria, then on dependencies, cycles and focused commands. So its items have
-- owners that may own their paths, no two owners claim overlapping paths, each blocking criterion of
-- the implementation is named by an item, and the dependencies of the items have no cycle. Further, the implementation tasks are those of its items, in
-- order; QA waits for the technical lead and every implementation task, each readiness task waits for
-- QA, and the acceptance waits for QA and every readiness task.
pub compile_dag-IsCompiled :
    (plan : BootstrapPlan) (env : Surroundings) (agents : List Agent) (required : List Criterion)
    (handed : Option ImplementationPlan) (c : Compiled)
    → compile_dag plan env agents required handed ≡ returned c
    → (implementation : ImplementationPlan) × (handed ≡ some implementation)
      × IsCompiled plan env agents (canonicalize implementation required).plan c
unfolding compile_dag
compile_dag-IsCompiled plan env agents required none c h = absurd (cc h)
compile_dag-IsCompiled plan env agents required (some implementation) c h =
    let (fit, staged_tasks, clean) =
      compile_plan-IsCompiled plan env agents (canonicalize implementation required).plan c h in
    (implementation, refl, (fit, staged_tasks, clean))
