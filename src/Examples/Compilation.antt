-- ===== src/Examples/Compilation.antt =====
-- A plan of two work items and its compilation.
use agentic_harness.Base.{
  ℕ, String, ◌≡◌, ◌≢◌, refl, ◌↔◌, true, false, none, some, List, [], ◌∷◌, any, elem, find, keep,
  unique, put, lookup, ◌=ₛ◌, eq_iff, arith, sym, ◌∙◌, ◌⊎◌, inl, inr, Bool-cases,
}
use agentic_harness.Compiler.{Criterion, WorkItem, ImplementationPlan, Agent, Tools, registry_agent}
use agentic_harness.Compiler.Criteria.{canonicalize, implementation_criteria}
use agentic_harness.Compiler.Ownership.{can_own_path}
use agentic_harness.Compiler.Cycles.{collect_cycle_issues}
use agentic_harness.Compiler.Ordered.{IsRank, collect_cycle_issues_iff}
use agentic_harness.Compiler.Checks.{Options, is_command}
use agentic_harness.Compiler.Inspection.{Inspection, inspect, work_ids}
use agentic_harness.Compiler.Fit.{IsPlanFit, inspect-IsPlanFit}
use agentic_harness.Compiler.Tasks.{CompiledTask, returned, built_task, implementation_id}
use agentic_harness.Compiler.Compile.{
  BootstrapPlan, Compiled, Surroundings, compile_dag, qa_task, acceptance_task,
}
use agentic_harness.Compiler.Staging.{IsCompiled, compile_dag-IsCompiled}
use agentic_harness.Compiler.Acyclic.{AreApart, IsTaskRank, compile_dag_acyclic}

abbrev tools : Tools
tools = record {
  pattern_matches = λ p path. p =ₛ path;
  is_executable = λ command. command =ₛ "npm test";
  scope_of = λ command. "workspace";
  command_id = λ command. command;
  normalize_scope = λ scope. scope;
  inferred_stage = λ c. "implementation";
  is_glob = λ path. false;
  show = λ n. "n";
  quote = λ text. text;
}

abbrev criterion : Criterion
criterion = record {
  id = "AC-1";
  source = "product";
  statement = "the page is there";
  blocking = true;
  verification = "open the page";
  proof_stage = some "implementation";
}

abbrev api_item : WorkItem
api_item = record {
  id = "api";
  owner_agent_id = "coder";
  objective = "write the interface";
  dependencies = [];
  owned_paths = "api" ∷ [];
  acceptance_criteria = "AC-1" ∷ [];
  validation = "npm test" ∷ [];
  validation_command_ids = [];
  execution_scope = none;
  execution_mode = none;
  complexity = "low";
  estimated_files = 1;
  contract_change = false;
  migration = false;
}

abbrev page_item : WorkItem
page_item = record api_item { id = "page"; dependencies = "api" ∷ []; owned_paths = "page" ∷ [] }

abbrev implementation : ImplementationPlan
implementation = record {
  revision = 1;
  acceptance_criteria = criterion ∷ [];
  work_items = api_item ∷ page_item ∷ [];
}

abbrev coder : Agent
coder = record {
  id = "coder";
  execution_role = "implementation";
  role = none;
  ownership_mode = "primary";
  primary_paths = "api" ∷ "page" ∷ [];
  shared_paths = [];
  collaborative_paths = [];
  validation_commands = [];
}

abbrev tester : Agent
tester = record coder { id = "tester"; execution_role = "verification"; primary_paths = [] }

abbrev product_owner : Agent
product_owner = record tester { id = "product-owner" }

abbrev agents : List Agent
agents = coder ∷ tester ∷ product_owner ∷ []

abbrev bootstrap : BootstrapPlan
bootstrap = record {
  run_id = "run";
  request = "add a page";
  technical_lead_task_id = "run:lead";
  quality_agent_id = "tester";
  requires_database = false;
  requires_dev_ops = false;
  requires_ai = false;
  shared_path_owner = [];
  tasks = [];
}

abbrev env : Surroundings
env = record {
  tools = tools;
  directive = λ request. none;
  accepts_plan = λ p. true;
  accepts_compiled = λ c. true;
}

abbrev tasks : List CompiledTask
tasks =
    built_task "run" "run:lead" api_item (criterion ∷ []) coder
    ∷ built_task "run" "run:lead" page_item (criterion ∷ []) coder
    ∷ []

abbrev qa : CompiledTask
qa = qa_task bootstrap tools tester implementation tasks

abbrev compiled : Compiled
compiled = record {
  implementation = tasks;
  qa = qa;
  readiness = [];
  acceptance = acceptance_task bootstrap product_owner implementation qa [];
  shared_path_owner = ("api", "coder") ∷ ("page", "coder") ∷ [];
}

collect_cycle_issues_iff_example :
    (issues : List String) × (collect_cycle_issues (page_item ∷ api_item ∷ []) ≡ some issues)
    × (issues ≡ [] ↔ ((rank : String → ℕ) × IsRank (page_item ∷ api_item ∷ []) rank))
collect_cycle_issues_iff_example = collect_cycle_issues_iff (page_item ∷ api_item ∷ [])

abbrev options : Options
options = record { focused = none; catalog = none }

inspect-IsPlanFit_example :
    (x : Inspection tools) × (inspect tools agents options implementation ≡ some x)
    × (x.issues ≡ [] → IsPlanFit tools agents options implementation)
inspect-IsPlanFit_example = inspect-IsPlanFit tools agents options implementation

is_compiled : compile_dag bootstrap env agents [] (some implementation) ≡ returned compiled
unfolding compile_dag find unique keep registry_agent can_own_path any lookup
    implementation_criteria is_command put
is_compiled = refl

compile_dag-IsCompiled_example :
    (i : ImplementationPlan) × (some implementation ≡ some i)
    × IsCompiled bootstrap env agents (canonicalize i []).plan compiled
compile_dag-IsCompiled_example =
    compile_dag-IsCompiled bootstrap env agents [] (some implementation) compiled is_compiled

api_or_page :
    (x : String) → elem x (work_ids implementation.work_items) ≡ true → (x ≡ "api") ⊎ (x ≡ "page")
api_or_page x h = elim (Bool-cases (x =ₛ "api")) [
  | inl same ↦ inl ((eq_iff x "api").0 same)
  | inr other ↦ inr ((eq_iff x "page").0 (ground arith))
]

apart_ids : implementation_id "run" "api" ≢ implementation_id "run" "page"
unfolding implementation_id
apart_ids h = cc ((eq_iff (implementation_id "run" "api") (implementation_id "run" "page")).1 h)

not_lead : (x : String) → (x ≡ "api") ⊎ (x ≡ "page") → implementation_id "run" x ≢ "run:lead"
unfolding implementation_id
not_lead x (inl a) h = cc ((eq_iff (implementation_id "run" "api") "run:lead").1 (rw a at h))
not_lead x (inr p) h = cc ((eq_iff (implementation_id "run" "page") "run:lead").1 (rw p at h))

same_id :
    (x y : String)
    → (x ≡ "api") ⊎ (x ≡ "page")
    → (y ≡ "api") ⊎ (y ≡ "page")
    → implementation_id "run" x ≡ implementation_id "run" y
    → x ≡ y
same_id x y (inl a) (inl b) h = a ∙ sym b
same_id x y (inl a) (inr b) h = absurd (apart_ids (rw (a, b) at h))
same_id x y (inr a) (inl b) h = absurd (apart_ids (sym (rw (a, b) at h)))
same_id x y (inr a) (inr b) h = a ∙ sym b

are_apart : AreApart bootstrap (work_ids implementation.work_items)
are_apart = (
  λ x y hx hy e. same_id x y (api_or_page x hx) (api_or_page y hy) e,
  λ x h. not_lead x (api_or_page x h),
)

compile_dag_acyclic_example : (rank : String → ℕ) × IsTaskRank tasks rank
compile_dag_acyclic_example =
    compile_dag_acyclic bootstrap env agents [] implementation compiled is_compiled are_apart
