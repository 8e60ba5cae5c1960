-- ===== src/Examples/Data.antt =====
-- The rows and stores of the examples.
use agentic_harness.Base.{none, some, [], ◌∷◌, null}
use agentic_harness.Host.{Host}
use agentic_harness.Rows.{Plan, Reasoning, Run, RunPatch, Task, TaskPatch, Continuation}
use agentic_harness.Store.Monad.{Store}
use agentic_harness.Store.Runs.{Options}
use agentic_harness.Store.Refinement.{Refinement}
use agentic_harness.Store.Registration.{Registration}
use agentic_harness.Store.History.{empty}

abbrev pub host : Host
host = record {
  sha256 = λ s. s;
  event_id = λ n. "event";
  event_time = λ n. "2026-01-01";
  show = λ n. "n";
  quote = λ s. s;
  message_id = λ adapter key at. some key;
}

abbrev pub no_reasoning : Reasoning
no_reasoning = record { mode = none; source = none; initial_level = none; confidence = none }

abbrev pub plan : Plan
plan = record {
  run_id = "run";
  request = "add a page";
  created_at = "2026-01-01";
  phase = "bootstrap";
  tasks = [];
  reasoning = none;
  topology = null;
  review_dependencies = null;
  topology_revision = null;
  topology_authority = null;
}

abbrev pub open_run : Run
open_run = record {
  run_id = "run";
  request = "add a page";
  status = "running";
  plan = plan;
  executor = none;
  workspace_mode = none;
  max_parallel = 2;
  peak_parallel = 0;
  created_at = "2026-01-01";
  engine = "v2";
  graph_version = none;
  state_version = 0;
  reasoning = no_reasoning;
  started_at = none;
  completed_at = none;
  runtime_driver = none;
}

abbrev pub closed_run : Run
closed_run = record open_run { status = "closed"; completed_at = some "2026-01-02" }

abbrev pub task : Task
task = record {
  task_id = "task";
  run_id = "run";
  agent_id = "writer";
  role = "writer";
  status = "routed";
  attempt = 0;
  max_attempts = 2;
  dependencies = [];
  owned_paths = [];
  reasoning_level = none;
  reasoning_source = none;
  state_version = 0;
  activity_version = 0;
  workspace_path = none;
  completed_at = none;
  error_code = none;
  error_message = none;
  lease_owner = none;
  lease_expires_at = none;
  retry_not_before = none;
  cleanup_state = none;
}

abbrev pub bound : Continuation
bound = record {
  continuation_id = "c";
  run_id = "run";
  schema_version = "agent-continuation/v2";
  session_adapter_id = "opencode";
  opencode_session_id = "session";
  opencode_server_url = "url";
  opencode_directory = none;
  wake_events = "run.completed" ∷ [];
  session_agent_id = "agent";
  session_provider_id = "provider";
  session_model_id = "model";
  session_model_variant = none;
  session_prompt_message_id = none;
  status = "waiting";
  generation = 0;
  current_delivery_id = none;
  created_at = "2026-01-01";
  updated_at = "2026-01-01";
  cancelled_at = none;
}

abbrev pub open_store : Store
open_store = record empty { runs = ("run", open_run) ∷ []; tasks = ("task", task) ∷ [] }

abbrev pub closed_store : Store
closed_store = record empty { runs = ("run", closed_run) ∷ []; continuations = ("run", bound) ∷ [] }

abbrev pub options : Options
options = record { expected_version = none; max_attempts = none; reasoning_source = none }

abbrev pub at_version_0 : Options
at_version_0 = record options { expected_version = some 0 }

abbrev pub run_patch : RunPatch
run_patch = record {
  status = none;
  completed_at = none;
  started_at = none;
  executor = none;
  workspace_mode = none;
  max_parallel = some 3;
  peak_parallel = none;
  runtime_driver = none;
}

abbrev pub reopening : RunPatch
reopening = record run_patch { status = some "running" }

abbrev pub task_patch : TaskPatch
task_patch = record {
  status = some "queued";
  attempt = none;
  workspace_path = none;
  completed_at = none;
  error_code = none;
  error_message = none;
  lease_owner = none;
  lease_expires_at = none;
  retry_not_before = none;
  cleanup_state = none;
}

-- The first removal succeeds and the second one throws.
abbrev pub half_refinement : Refinement
half_refinement = record {
  options = options;
  removed_task_ids = "task" ∷ "unknown" ∷ [];
  dependency_updates = [];
  added_tasks = [];
}

abbrev pub registration : Registration
registration = record {
  adapter_id = none;
  session_id = "session";
  server_url = "url";
  directory = none;
  wake_on = none;
  agent_id = "agent";
  provider_id = "provider";
  model_id = "model";
  variant = "";
  source_message_id = "m";
}
