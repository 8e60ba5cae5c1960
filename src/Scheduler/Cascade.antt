-- ===== src/Scheduler/Cascade.antt =====
-- .agents/runtime/event-driven-reconciler.mjs: the cascade of failed dependencies. `at` is the time that
-- the clock gives when a task is cancelled, by its identifier.
use agentic_harness.Base.{
  ℕ, zero, suc, String, Bool, true, false, ◌&&◌, Option, none, some, List, [], ◌∷◌, Dict, str, obj,
  field, end, elem,
}
use agentic_harness.Host.{Host}
use agentic_harness.Rows.{Task, TaskPatch}
use agentic_harness.Contracts.{dependencies_failed}
use agentic_harness.Store.Monad.{Store}
use agentic_harness.Store.Events.{event}
use agentic_harness.Store.Runs.{list_tasks, update_task}
use agentic_harness.Scheduler.{pending_statuses, no_patch, no_options, state_map}

abbrev pub cancel_patch : String → TaskPatch
cancel_patch at = record no_patch {
  status = some "cancelled";
  completed_at = some (some at);
  error_code = some (some "dependency_failed");
  error_message = some (some "Upstream task did not integrate");
}

-- The condition of the cascade, on the states that the round read.
unfoldable pub is_doomed : Dict String → Task → Bool
is_doomed states t = elem t.status pending_statuses && dependencies_failed t states

module _ (host : Host) (run_id : String) (at : String → String) where
  unfoldable pub cancel_task : Task → Store → Store
  unfolding update_task event
  cancel_task t s =
      event host run_id (some t.task_id) "task.cancelled"
        (obj (field "reason" (str "dependency_failed") end))
        (update_task t.task_id (cancel_patch (at t.task_id)) no_options s).1

  -- One pass of the `for` loop over the tasks and the states that were read before it: whether a
  -- task was cancelled, and the store.
  unfoldable pub cascade_pass : Dict String → List Task → Store → Bool × Store
  unfolding is_doomed cancel_task
  cascade_pass states [] s = (false, s)
  cascade_pass states (t ∷ ts) s = elim (is_doomed states t) [
    | true ↦ (true, (cascade_pass states ts (cancel_task t s)).1)
    | false ↦ cascade_pass states ts s
  ]

  -- One round of the `while` loop of `cascadeDependencyFailures`.
  unfoldable pub cascade_round : Store → Bool × Store
  unfolding cascade_pass list_tasks state_map
  cascade_round s = let tasks = list_tasks run_id s in cascade_pass (state_map tasks) tasks s

  -- The `while` loop; `none` where the fuel runs out.
  unfoldable pub cascade : ℕ → Store → Option Store
  unfolding cascade_round
  cascade zero s = elim (cascade_round s).0 [ true ↦ none | false ↦ some (cascade_round s).1 ]
  cascade (suc n) s = elim (cascade_round s).0 [
    | true ↦ cascade n (cascade_round s).1
    | false ↦ some (cascade_round s).1
  ]
