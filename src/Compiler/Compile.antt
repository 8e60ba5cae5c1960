-- ===== src/Compiler/Compile.antt =====
-- .agents/runtime/dag-compiler.mjs: `compileImplementationDag`. The checks against the schemas, and the
-- directive that a request gives, are parameters. The time of the compilation is left out.
use agentic_harness.Base.{
  String, Bool, true, not, Option, none, some, List, [], ◌∷◌, ◌++◌, map, Dict, put, elem, find,
  keep, length, ltb, ◌=ₛ◌, unique, if◌then◌else◌,
}
use agentic_harness.Compiler.{
  Criterion, WorkItem, ImplementationPlan, Agent, Tools, registry_agent, template,
}
use agentic_harness.Compiler.Criteria.{
  implementation_criteria, qa_criteria, database_criteria, infrastructure_criteria, ai_criteria,
  canonicalize,
}
use agentic_harness.Compiler.Inspection.{criterion_ids, Inspection, inspect}
use agentic_harness.Compiler.Tasks.{
  CompiledTask, Outcome, returned, refused, implementation_tasks, verification_task,
}

pub record BootstrapTask : Type 0 where
  pub task_id : String
  pub stage : String

pub record BootstrapPlan : Type 0 where
  pub run_id : String
  pub request : String
  pub technical_lead_task_id : String
  pub quality_agent_id : String
  pub requires_database : Bool
  pub requires_dev_ops : Bool
  pub requires_ai : Bool
  pub shared_path_owner : Dict String
  pub tasks : List BootstrapTask

-- The tasks that the compilation adds, in the order of the code, and the merged owners of the paths.
pub record Compiled : Type 0 where
  pub implementation : List CompiledTask
  pub qa : CompiledTask
  pub readiness : List CompiledTask
  pub acceptance : CompiledTask
  pub shared_path_owner : Dict String

pub record Surroundings : Type 0 where
  pub tools : Tools
  -- the commands of `implementationValidationDirectiveFromRequest`, where it is focused
  pub directive : String → Option (List String)
  -- `assertSchema` passes
  pub accepts_plan : ImplementationPlan → Bool
  pub accepts_compiled : Compiled → Bool

abbrev pub evidence_stages : List String
evidence_stages =
    "product-discovery" ∷ "architecture-review" ∷ "database-review" ∷ "infrastructure-review"
    ∷ "ai-operations-review" ∷ []

-- `plan.tasks.find((task) => task.stage === stage)?.taskId`, as a list.
abbrev pub review_task : Option BootstrapTask → List String
review_task none = []
review_task (some t) = t.task_id ∷ []

abbrev pub merged : Dict String → Dict String → Dict String
merged base [] = base
merged base ((path, owner) ∷ d) = merged (put path owner base) d

-- The parts of `issues.join(" | ")`.
abbrev pub separated : List String → List String
separated [] = []
separated (x ∷ []) = x ∷ []
separated (x ∷ y ∷ xs) = x ∷ " | " ∷ separated (y ∷ xs)

abbrev pub all_validation : List WorkItem → List String
all_validation [] = []
all_validation (item ∷ items) = item.validation ++ all_validation items

-- `runtimeReadinessCriterion`
abbrev pub readiness_criterion : String → String → String → Criterion
readiness_criterion id statement verification = record {
  id = id;
  source = "runtime";
  statement = statement;
  blocking = true;
  verification = verification;
  proof_stage = none;
}

abbrev pub database_ready : Criterion
database_ready =
    readiness_criterion "PROC-DB-READY-1"
      "Database readiness is explicit for the integrated increment: assigned database criteria pass or scoped no-impact is proven."
      "inspect accepted QA evidence and the upstream database review; approve only with database readiness or explicit no-impact evidence"

abbrev pub infrastructure_ready : Criterion
infrastructure_ready =
    readiness_criterion "PROC-INFRA-READY-1"
      "Infrastructure readiness is explicit for the integrated increment: assigned infrastructure criteria pass or scoped no-impact is proven."
      "inspect accepted QA evidence and the upstream infrastructure review; approve only with deploy/rollback readiness or explicit no-impact evidence"

abbrev pub ai_ready : Criterion
ai_ready =
    readiness_criterion "PROC-AI-READY-1"
      "AI/ML readiness is explicit for the integrated increment: assigned AI criteria pass or scoped no-impact is proven."
      "inspect accepted QA evidence and the upstream AI review; approve only with quality/rollback readiness or explicit no-impact evidence"

-- A readiness stage: what the code writes out once for each of the three.
pub record Area : Type 0 where
  pub required : Bool
  pub agent : Option Agent
  pub missing : String
  pub suffix : String
  pub objective : String
  pub review_stage : String
  pub criteria : List Criterion

module _ (plan : BootstrapPlan) where
  abbrev pub task_of_stage : String → List String
  task_of_stage stage = review_task (find (λ (t : BootstrapTask). t.stage =ₛ stage) plan.tasks)

  abbrev pub area_task : Area → String → Agent → CompiledTask
  area_task area qa_id a =
      verification_task plan.run_id a "operational-readiness" area.suffix area.objective
        (unique (qa_id ∷ task_of_stage area.review_stage)) area.criteria []

  abbrev pub with_readiness :
      CompiledTask → Outcome (List CompiledTask) → Outcome (List CompiledTask)
  with_readiness t (refused e) = refused e
  with_readiness t (returned ts) = returned (t ∷ ts)

  abbrev pub with_area :
      String → Area → Option Agent → Outcome (List CompiledTask) → Outcome (List CompiledTask)
  with_area qa_id area none rest = refused area.missing
  with_area qa_id area (some a) rest = with_readiness (area_task area qa_id a) rest

  -- The readiness tasks, or the message of the first required agent that is missing.
  unfoldable pub readiness_tasks : String → List Area → Outcome (List CompiledTask)
  readiness_tasks qa_id [] = returned []
  readiness_tasks qa_id (area ∷ areas) =
      let rest = readiness_tasks qa_id areas in
      if area.required then with_area qa_id area area.agent rest else rest

  unfoldable pub evidence_tasks : List BootstrapTask → List String
  evidence_tasks tasks =
      map (λ (t : BootstrapTask). t.task_id)
        (keep (λ (t : BootstrapTask). elem t.stage evidence_stages) tasks)

  unfoldable pub qa_task : Tools → Agent → ImplementationPlan → List CompiledTask → CompiledTask
  unfolding verification_task evidence_tasks
  qa_task tools a implementation tasks =
      verification_task plan.run_id a "quality-assurance" ""
        (template
          ("Independently prove every blocking acceptance criterion for: " ∷ plan.request ∷ []))
        (evidence_tasks plan.tasks
          ++ plan.technical_lead_task_id ∷ map (λ (t : CompiledTask). t.task_id) tasks)
        (qa_criteria tools implementation.acceptance_criteria)
        (unique (all_validation implementation.work_items))

  unfoldable pub acceptance_task :
      Agent → ImplementationPlan → CompiledTask → List CompiledTask → CompiledTask
  unfolding verification_task
  acceptance_task a implementation qa readiness =
      verification_task plan.run_id a "product-acceptance" ""
        (template (
          "Accept or reject the increment against every approved product criterion for: "
          ∷ plan.request ∷ []))
        (unique (qa.task_id ∷ map (λ (t : CompiledTask). t.task_id) readiness))
        implementation.acceptance_criteria []

  abbrev pub areas : Tools → List Agent → List Criterion → List Area
  areas tools agents criteria =
      record {
        required = plan.requires_database;
        agent = registry_agent agents "database-administration";
        missing = "database_agent_missing";
        suffix = "database";
        objective = template (
            "Prove scoped database readiness or explicitly prove no database impact for: "
            ∷ plan.request ∷ []);
        review_stage = "database-review";
        criteria = database_criteria tools criteria ++ database_ready ∷ [];
      }
      ∷ record {
        required = plan.requires_dev_ops;
        agent = registry_agent agents "devops-engineering";
        missing = "devops_agent_missing";
        suffix = "devops";
        objective = template (
            "Prove scoped infrastructure readiness or explicitly prove no infrastructure impact for: "
            ∷ plan.request ∷ []);
        review_stage = "infrastructure-review";
        criteria = infrastructure_criteria tools criteria ++ infrastructure_ready ∷ [];
      }
      ∷ record {
        required = plan.requires_ai;
        agent = registry_agent agents "ai-llmops";
        missing = "ai_llmops_agent_missing";
        suffix = "ai-llmops";
        objective = template (
            "Prove scoped AI/ML readiness or explicitly prove no AI/ML impact for: " ∷ plan.request
            ∷ []);
        review_stage = "ai-operations-review";
        criteria = ai_criteria tools criteria ++ ai_ready ∷ [];
      }
      ∷ []

  module _ (env : Surroundings) (agents : List Agent) (implementation : ImplementationPlan) where
    abbrev pub checked_compiled : Compiled → Outcome Compiled
    checked_compiled c = if env.accepts_compiled c then returned c else refused "executionPlan"

    abbrev pub with_acceptance :
        List CompiledTask
        → CompiledTask
        → Agent
        → Dict String
        → Outcome (List CompiledTask)
        → Outcome Compiled
    with_acceptance tasks qa owner paths (refused e) = refused e
    with_acceptance tasks qa owner paths (returned readiness) = checked_compiled (record {
      implementation = tasks;
      qa = qa;
      readiness = readiness;
      acceptance = acceptance_task owner implementation qa readiness;
      shared_path_owner = merged plan.shared_path_owner paths;
    })

    abbrev pub with_agents :
        List CompiledTask → Dict String → Option Agent → Option Agent → Outcome Compiled
    with_agents tasks paths (some a) (some owner) =
        let qa = qa_task env.tools a implementation tasks in
        with_acceptance tasks qa owner paths
          (readiness_tasks qa.task_id (areas env.tools agents implementation.acceptance_criteria))
    with_agents tasks paths _ _ = refused "compiled_dag_process_agent_missing"

    abbrev pub with_tasks : Dict String → Outcome (List CompiledTask) → Outcome Compiled
    with_tasks paths (refused e) = refused e
    with_tasks paths (returned tasks) =
        with_agents tasks paths (registry_agent agents plan.quality_agent_id)
          (registry_agent agents "product-owner")

    -- After the inspection, which has to raise no issue.
    abbrev pub with_inspection : Option (Inspection env.tools) → Outcome Compiled
    with_inspection none = refused "fuel"
    with_inspection (some x) =
        if ltb 0 (length x.issues)
        then refused (template ("implementation_plan_validation_failed:" ∷ separated x.issues))
        else with_tasks x.claims.owners (
            implementation_tasks plan.run_id plan.technical_lead_task_id agents
              implementation.acceptance_criteria
              (criterion_ids (implementation_criteria env.tools implementation.acceptance_criteria))
              implementation.work_items)

    unfoldable pub compile_plan : Outcome Compiled
    unfolding inspect implementation_tasks qa_task readiness_tasks acceptance_task
    compile_plan =
        if not (env.accepts_plan implementation)
        then refused "implementationPlan"
        else with_inspection (
            inspect env.tools agents
              (record { focused = env.directive plan.request; catalog = none }) implementation)

-- `compileImplementationDag`; the plan of the technical lead is `none` where the handoff has none.
unfoldable pub compile_dag :
    BootstrapPlan
    → Surroundings
    → List Agent
    → List Criterion
    → Option ImplementationPlan
    → Outcome Compiled
unfolding compile_plan canonicalize
compile_dag plan env agents required none = refused "technical_lead_implementation_plan_missing"
compile_dag plan env agents required (some implementation) =
    compile_plan plan env agents (canonicalize implementation required).plan
