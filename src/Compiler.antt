-- ===== src/Compiler.antt =====
-- .agents/runtime/dag-compiler.mjs: the plan of the technical lead, its inspection, and the tasks that
-- it is compiled to. A missing text is empty where the code reads both alike. Regular expressions,
-- the hash of a command and the checks against JSON schemas are in `Tools`. Of a task, the command
-- specifications and the model requirements are left out.
pub mod Criteria
pub mod Ownership
pub mod Cycles
pub mod Checks
pub mod Inspection
pub mod Tasks
pub mod Compile
pub mod Visiting
pub mod Ordered
pub mod Coverage
pub mod Fit
pub mod Passed
pub mod Dependencies
pub mod Staging
pub mod Acyclic
use Prim.Native.String.{◌++◌}
use agentic_harness.Base.{ℕ, String, Bool, Option, find, ◌=ₛ◌}
use mathlib.Core.List.{List, [], ◌∷◌}

pub record Criterion : Type 0 where
  pub id : String
  pub source : String
  pub statement : String
  -- `criterion.blocking !== false`
  pub blocking : Bool
  pub verification : String
  pub proof_stage : Option String

pub record WorkItem : Type 0 where
  pub id : String
  pub owner_agent_id : String
  pub objective : String
  pub dependencies : List String
  pub owned_paths : List String
  pub acceptance_criteria : List String
  pub validation : List String
  pub validation_command_ids : List String
  pub execution_scope : Option String
  pub execution_mode : Option String
  pub complexity : String
  pub estimated_files : ℕ
  pub contract_change : Bool
  pub migration : Bool

pub record ImplementationPlan : Type 0 where
  pub revision : ℕ
  pub acceptance_criteria : List Criterion
  pub work_items : List WorkItem

pub record Agent : Type 0 where
  pub id : String
  pub execution_role : String
  pub role : Option String
  pub ownership_mode : String
  pub primary_paths : List String
  pub shared_paths : List String
  pub collaborative_paths : List String
  pub validation_commands : List String

-- `registry.byId.get(id)`, on the agents of the registry.
unfoldable pub registry_agent : List Agent → String → Option Agent
registry_agent agents id = find (λ a. a.id =ₛ id) agents

pub record Tools : Type 0 where
  -- `patternMatches` of .agents/runtime/utils.mjs
  pub pattern_matches : String → String → Bool
  -- `isExecutableValidationCommand`, `classifyValidationExecutionScope`, `validationCommandId` and
  -- the normalization of a scope, of .agents/runtime/validation-command.mjs
  pub is_executable : String → Bool
  pub scope_of : String → String
  pub command_id : String → String
  pub normalize_scope : String → String
  -- the stage that the texts of a criterion without a stage of its own say
  pub inferred_stage : Criterion → String
  -- `/[*!?\[\]{}]/.test(path)`
  pub is_glob : String → Bool
  -- `String(index)` and `JSON.stringify(text)`
  pub show : ℕ → String
  pub quote : String → String

-- A template of several texts.
unfoldable pub template : List String → String
template [] = ""
template (t ∷ ts) = t ++ template ts
