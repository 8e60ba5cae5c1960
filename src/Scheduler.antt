-- ===== src/Scheduler.antt =====
-- .agents/runtime/event-driven-reconciler.mjs: which tasks of a run are dispatched next, the
-- cascade of failed dependencies.
pub mod Dispatch
pub mod Cascade
pub mod Passes
pub mod Advance
pub mod Settled
pub mod Ending
use agentic_harness.Base.{
  ℕ, ◌-◌, String, Bool, true, false, ◌&&◌, Option, none, some, List, [], ◌∷◌, Dict, elem, keep,
  length, take, is_truthy, put, sort_by, leb, ◌=ₛ◌, if◌then◌else◌,
}
use agentic_harness.Rows.{Task, TaskPatch}
use agentic_harness.Policy.{DispatchInput}
use agentic_harness.Contracts.{dependencies_satisfied}
use agentic_harness.Store.Runs.{Options}

abbrev pub pending_statuses : List String
pending_statuses = "routed" ∷ "retrying" ∷ []

abbrev pub active_statuses : List String
active_statuses = "queued" ∷ "running" ∷ []

-- `new Map(tasks.map((task) => [task.task_id, task.status]))`
abbrev pub state_from : Dict String → List Task → Dict String
state_from states [] = states
state_from states (t ∷ ts) = state_from (put t.task_id t.status states) ts

unfoldable pub state_map : List Task → Dict String
state_map tasks = state_from [] tasks

-- `Date.parse` and `localeCompare(…) <= 0`, which the host gives.
pub record Locale : Type 0 where
  pub parse_date : String → Option ℕ
  pub not_after : String → String → Bool

abbrev has_passed : Option ℕ → ℕ → Bool
has_passed none now = false
has_passed (some t) now = leb t now

module _ (locale : Locale) where
  abbrev window_at : Option String → ℕ → Bool
  window_at none now = true
  window_at (some raw) now = if is_truthy raw then has_passed (locale.parse_date raw) now else true

  unfoldable pub retry_window_open : Task → ℕ → Bool
  retry_window_open t now =
      if t.status =ₛ "retrying" then window_at t.retry_not_before now else true

  -- The test of `selectReadyDispatchTasks`.
  unfoldable pub is_ready : Dict String → ℕ → Task → Bool
  unfolding retry_window_open
  is_ready states now t =
      elem t.status pending_statuses && retry_window_open t now && dependencies_satisfied t states

  -- The input of the policy that `dispatchReadyTasks` makes for a selected task.
  unfoldable pub dispatch_input : String → ℕ → Bool → Task → DispatchInput
  unfolding retry_window_open
  dispatch_input run_status now topology_ready t = record {
    run_status = run_status;
    task_status = t.status;
    dependencies_satisfied = true;
    retry_window_open = retry_window_open t now;
    topology_ready = topology_ready;
  }

  pub record Selection : Type 0 where
    pub active : ℕ
    pub available : ℕ
    pub ready : List Task

  abbrev pub by_id : Task → Task → Bool
  by_id a b = locale.not_after a.task_id b.task_id

  -- `max_parallel` is `Number(maxParallel ?? 1)`.
  unfoldable pub select_ready : List Task → ℕ → ℕ → Selection
  unfolding is_ready state_map
  select_ready tasks max_parallel now =
      let active = length (keep (λ t. elem t.status active_statuses) tasks) in
      let available = max_parallel - active in
      record {
        active = active;
        available = available;
        ready = take available (sort_by by_id (keep (is_ready (state_map tasks) now) tasks));
      }

abbrev pub no_options : Options
no_options = record { expected_version = none; max_attempts = none; reasoning_source = none }

abbrev pub no_patch : TaskPatch
no_patch = record {
  status = none;
  attempt = none;
  workspace_path = none;
  completed_at = none;
  error_code = none;
  error_message = none;
  lease_owner = none;
  lease_expires_at = none;
  retry_not_before = none;
  cleanup_state = none;
}
