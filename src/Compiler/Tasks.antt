-- ===== src/Compiler/Tasks.antt =====
-- .agents/runtime/dag-compiler.mjs: the tasks that a plan is compiled to, `compileImplementationDag`.
use Prim.Native.Char.{Char, code}
use agentic_harness.Base.{
  ℕ, String, Bool, true, false, not, ◌&&◌, ◌||◌, Option, none, some, List, [], ◌∷◌, ◌++◌, map, elem,
  or_else, leb, length, ◌==◌, ◌=ₛ◌, trim, unique, if◌then◌else◌,
}
use agentic_harness.Compiler.{Criterion, WorkItem, Agent, registry_agent, template}
use agentic_harness.Compiler.Ownership.{implementation_roles}
use agentic_harness.Compiler.Checks.{criterion_of}

-- `[A-Za-z0-9._-]`
abbrev pub is_slug_char : ℕ → Bool
is_slug_char c =
    (leb 48 c && leb c 57)
    || (leb 65 c && leb c 90)
    || (leb 97 c && leb c 122)
    || c == 45
    || c == 46
    || c == 95

-- Each run of other characters becomes one dash.
unfoldable pub dashed : Bool → String → String
dashed in_run String.[] = String.[]
dashed in_run (String.◌∷◌ c s) =
    let kept = String.◌∷◌ c (dashed false s) in
    let rest = dashed true s in
    if is_slug_char (code c) then kept else if in_run then rest else String.◌∷◌ "-" rest

unfoldable pub without_dashes : String → String
without_dashes String.[] = String.[]
without_dashes (String.◌∷◌ c s) =
    let rest = without_dashes s in if code c == 45 then rest else String.◌∷◌ c s

unfoldable pub without_last_dashes : String → String
without_last_dashes String.[] = String.[]
without_last_dashes (String.◌∷◌ c s) =
    let rest = without_last_dashes s in
    if code c == 45 && rest =ₛ "" then String.[] else String.◌∷◌ c rest

abbrev capitals : List (Char × Char)
capitals =
    ("A", "a")
    ∷ ("B", "b")
    ∷ ("C", "c")
    ∷ ("D", "d")
    ∷ ("E", "e")
    ∷ ("F", "f")
    ∷ ("G", "g")
    ∷ ("H", "h")
    ∷ ("I", "i")
    ∷ ("J", "j")
    ∷ ("K", "k")
    ∷ ("L", "l")
    ∷ ("M", "m")
    ∷ ("N", "n")
    ∷ ("O", "o")
    ∷ ("P", "p")
    ∷ ("Q", "q")
    ∷ ("R", "r")
    ∷ ("S", "s")
    ∷ ("T", "t")
    ∷ ("U", "u")
    ∷ ("V", "v")
    ∷ ("W", "w")
    ∷ ("X", "x")
    ∷ ("Y", "y")
    ∷ ("Z", "z")
    ∷ []

abbrev lower_by : List (Char × Char) → Char → Char
lower_by [] c = c
lower_by ((upper, lower) ∷ pairs) c = if code upper == code c then lower else lower_by pairs c

-- `toLowerCase` of what a slug has.
unfoldable pub lower_case : String → String
lower_case String.[] = String.[]
lower_case (String.◌∷◌ c s) = String.◌∷◌ (lower_by capitals c) (lower_case s)

unfoldable pub slug : String → String
unfolding trim dashed without_dashes without_last_dashes lower_case
slug value = lower_case (without_last_dashes (without_dashes (dashed false (trim value))))

unfoldable pub level_for_complexity : String → String
level_for_complexity complexity =
    if complexity =ₛ "low" then "medium" else if complexity =ₛ "critical" then "max" else "high"

pub record CompiledTask : Type 0 where
  pub task_id : String
  pub agent_id : String
  pub objective : String
  pub dependencies : List String
  pub owned_paths : List String
  pub role : String
  pub sdd_role : Option String
  pub stage : String
  pub work_item_id : String
  pub reasoning_level : String
  pub acceptance_criteria : List Criterion
  pub validation : List String
  pub validation_command_ids : List String
  pub execution_scope : Option String
  pub complexity : String
  pub estimated_files : ℕ
  pub contract_change : Bool
  pub migration : Bool
  pub execution_mode : Option String

-- `${runId}:implementation:${slug(id)}`
unfoldable pub implementation_id : String → String → String
unfolding slug template
implementation_id run_id id = template (run_id ∷ ":implementation:" ∷ slug id ∷ [])

-- What a compilation returns, or the message it throws.
pub data Outcome {ℓ} (A : Type ℓ) : Type ℓ where
  returned : A → Outcome A
  refused : String → Outcome A

-- The criteria that the map has for these identifiers.
abbrev pub assigned_criteria : List Criterion → List String → List String → List Criterion
assigned_criteria criteria implementation_ids [] = []
assigned_criteria criteria implementation_ids (id ∷ ids) =
    let rest = assigned_criteria criteria implementation_ids ids in
    if elem id implementation_ids
    then elim (criterion_of criteria id) [ none ↦ rest | some c ↦ c ∷ rest ]
    else rest

abbrev pub with_task :
    Outcome CompiledTask → Outcome (List CompiledTask) → Outcome (List CompiledTask)
with_task (refused e) rest = refused e
with_task (returned t) (refused e) = refused e
with_task (returned t) (returned ts) = returned (t ∷ ts)

module _ (run_id technical_lead_task_id : String) where
  unfoldable pub task_dependencies : WorkItem → List String
  unfolding implementation_id
  task_dependencies item =
      unique (technical_lead_task_id ∷ map (implementation_id run_id) item.dependencies)

  abbrev pub built_task : WorkItem → List Criterion → Agent → CompiledTask
  built_task item assigned a = record {
    task_id = implementation_id run_id item.id;
    agent_id = item.owner_agent_id;
    objective = item.objective;
    dependencies = task_dependencies item;
    owned_paths = unique item.owned_paths;
    role = a.execution_role;
    sdd_role = some (or_else a.role "developer");
    stage = "implementation";
    work_item_id = item.id;
    reasoning_level = level_for_complexity item.complexity;
    acceptance_criteria = assigned;
    validation = item.validation;
    validation_command_ids = item.validation_command_ids;
    execution_scope = some (or_else item.execution_scope "workspace");
    complexity = item.complexity;
    estimated_files = item.estimated_files;
    contract_change = item.contract_change;
    migration = item.migration;
    execution_mode = some (or_else item.execution_mode "agent");
  }

  -- `implementationTask`
  unfoldable pub implementation_task :
      List Agent → List Criterion → List String → WorkItem → Outcome CompiledTask
  unfolding task_dependencies level_for_complexity
  implementation_task agents criteria implementation_ids item =
      elim (registry_agent agents item.owner_agent_id) [
        | none ↦
            refused (template ("implementation_plan_agent_unknown:" ∷ item.owner_agent_id ∷ []))
        | some a ↦
            if not (elem a.execution_role implementation_roles)
            then refused
                (template ("implementation_plan_agent_not_implementer:" ∷ item.owner_agent_id ∷ []))
            else if length (assigned_criteria criteria implementation_ids item.acceptance_criteria)
                == 0
            then refused (
                template (
                  "implementation_plan_work_item_without_implementation_criterion:" ∷ item.id ∷ []))
            else returned (
                built_task item
                  (assigned_criteria criteria implementation_ids item.acceptance_criteria) a)
      ]

  -- `workItems.map((item) => implementationTask(…))`
  unfoldable pub implementation_tasks :
      List Agent → List Criterion → List String → List WorkItem → Outcome (List CompiledTask)
  unfolding implementation_task
  implementation_tasks agents criteria ids [] = returned []
  implementation_tasks agents criteria ids (item ∷ items) =
      with_task (implementation_task agents criteria ids item)
        (implementation_tasks agents criteria ids items)

module _ (run_id : String) where
  -- `verificationTask`; the suffix is empty where there is none.
  unfoldable pub verification_task :
      Agent → String → String → String → List String → List Criterion → List String → CompiledTask
  verification_task a stage suffix objective dependencies criteria validation = record {
    task_id =
        if suffix =ₛ ""
        then template (run_id ∷ ":" ∷ stage ∷ [])
        else template (run_id ∷ ":" ∷ stage ∷ ":" ∷ suffix ∷ []);
    agent_id = a.id;
    objective = objective;
    dependencies = unique dependencies;
    owned_paths = unique (a.primary_paths ++ (a.collaborative_paths ++ a.shared_paths));
    role = "verification";
    sdd_role = a.role;
    stage = stage;
    work_item_id = template (run_id ∷ ":" ∷ stage ∷ []);
    reasoning_level = "high";
    acceptance_criteria = criteria;
    validation = validation;
    validation_command_ids = [];
    execution_scope = none;
    complexity = "high";
    estimated_files = 0;
    contract_change = false;
    migration = false;
    execution_mode = none;
  }
