-- ===== src/Rows.antt =====
-- The rows of the orchestration store and the patches that updates apply to them
-- (.agents/runtime/in-memory-test-store.mjs). A column that JSON encodes holds the value that it
-- encodes; `null` and a missing column are both `none`.
use agentic_harness.Base.{ℕ, String, Option, List, Json, or_else}

-- What the store reads of a task of a plan.
pub record PlannedTask : Type 0 where
  pub task_id : String
  pub agent_id : String
  pub role : String
  pub dependencies : List String
  pub owned_paths : List String
  pub reasoning_level : Option String

pub record Reasoning : Type 0 where
  pub mode : Option String
  pub source : Option String
  pub initial_level : Option String
  pub confidence : Option String

pub record Plan : Type 0 where
  pub run_id : String
  pub request : String
  pub created_at : String
  pub phase : String
  pub tasks : List PlannedTask
  pub reasoning : Option Reasoning
  pub topology : Json
  pub review_dependencies : Json
  pub topology_revision : Json
  pub topology_authority : Json

pub record Run : Type 0 where
  pub run_id : String
  pub request : String
  pub status : String
  pub plan : Plan
  pub executor : Option String
  pub workspace_mode : Option String
  pub max_parallel : ℕ
  pub peak_parallel : ℕ
  pub created_at : String
  pub engine : String
  pub graph_version : Option String
  pub state_version : ℕ
  pub reasoning : Reasoning
  pub started_at : Option String
  pub completed_at : Option String
  pub runtime_driver : Option String

-- A patch: `none` where the patch has no such property.
pub record RunPatch : Type 0 where
  pub status : Option String
  pub completed_at : Option (Option String)
  pub started_at : Option (Option String)
  pub executor : Option (Option String)
  pub workspace_mode : Option (Option String)
  pub max_parallel : Option ℕ
  pub peak_parallel : Option ℕ
  pub runtime_driver : Option (Option String)

-- `Object.assign(current, patch)`
unfoldable pub assign_run : Run → RunPatch → Run
assign_run r p = record r {
  status = or_else p.status r.status;
  completed_at = or_else p.completed_at r.completed_at;
  started_at = or_else p.started_at r.started_at;
  executor = or_else p.executor r.executor;
  workspace_mode = or_else p.workspace_mode r.workspace_mode;
  max_parallel = or_else p.max_parallel r.max_parallel;
  peak_parallel = or_else p.peak_parallel r.peak_parallel;
  runtime_driver = or_else p.runtime_driver r.runtime_driver;
}

pub record Task : Type 0 where
  pub task_id : String
  pub run_id : String
  pub agent_id : String
  pub role : String
  pub status : String
  pub attempt : ℕ
  pub max_attempts : ℕ
  pub dependencies : List String
  pub owned_paths : List String
  pub reasoning_level : Option String
  pub reasoning_source : Option String
  pub state_version : ℕ
  pub activity_version : ℕ
  pub workspace_path : Option String
  pub completed_at : Option String
  pub error_code : Option String
  pub error_message : Option String
  pub lease_owner : Option String
  pub lease_expires_at : Option String
  pub retry_not_before : Option String
  pub cleanup_state : Option String

pub record TaskPatch : Type 0 where
  pub status : Option String
  pub attempt : Option ℕ
  pub workspace_path : Option (Option String)
  pub completed_at : Option (Option String)
  pub error_code : Option (Option String)
  pub error_message : Option (Option String)
  pub lease_owner : Option (Option String)
  pub lease_expires_at : Option (Option String)
  pub retry_not_before : Option (Option String)
  pub cleanup_state : Option (Option String)

unfoldable pub assign_task : Task → TaskPatch → Task
assign_task t p = record t {
  status = or_else p.status t.status;
  attempt = or_else p.attempt t.attempt;
  workspace_path = or_else p.workspace_path t.workspace_path;
  completed_at = or_else p.completed_at t.completed_at;
  error_code = or_else p.error_code t.error_code;
  error_message = or_else p.error_message t.error_message;
  lease_owner = or_else p.lease_owner t.lease_owner;
  lease_expires_at = or_else p.lease_expires_at t.lease_expires_at;
  retry_not_before = or_else p.retry_not_before t.retry_not_before;
  cleanup_state = or_else p.cleanup_state t.cleanup_state;
}

pub record Event : Type 0 where
  pub event_id : String
  pub event_sequence : ℕ
  pub run_id : String
  pub task_id : Option String
  pub event_type : String
  pub payload : Json
  pub created_at : String

pub record Continuation : Type 0 where
  pub continuation_id : String
  pub run_id : String
  pub schema_version : String
  pub session_adapter_id : String
  pub opencode_session_id : String
  pub opencode_server_url : String
  pub opencode_directory : Option String
  pub wake_events : List String
  pub session_agent_id : String
  pub session_provider_id : String
  pub session_model_id : String
  pub session_model_variant : Option String
  pub session_prompt_message_id : Option String
  pub status : String
  pub generation : ℕ
  pub current_delivery_id : Option String
  pub created_at : String
  pub updated_at : String
  pub cancelled_at : Option String

pub record Delivery : Type 0 where
  pub delivery_id : String
  pub continuation_id : String
  pub run_id : String
  pub schema_version : String
  pub generation : ℕ
  pub event_type : String
  pub terminal_occurrence_key : String
  pub effect_key : String
  pub opencode_message_id : String
  pub prompt_text : String
  pub prompt_sha256 : String
  pub status : String
  pub attempts : ℕ
  pub created_at : String
  pub updated_at : String
  pub accepted_at : Option String
  pub observed_at : Option String
  pub completed_at : Option String
  pub last_error : Option String
