-- ===== src/Store/Runs.antt =====
-- The runs and the tasks: `#insertTask`, `addTasks`, `replacePlan`, `applyBootstrapPlanRefinement`,
-- `updateRun`, `updateTask`, `touchTask` and the reads.
use agentic_harness.Base.{
  ℕ, ◌+◌, String, Bool, false, not, Option, none, some, List, [], ◌∷◌, map, num, str, obj, end,
  field, strs, ◌==◌, ◌=ₛ◌, keep, length, or_else, lookup, put, values, if◌then◌else◌,
}
use agentic_harness.Host.{Host}
use agentic_harness.Rows.{
  Plan, PlannedTask, Run, RunPatch, Task, TaskPatch, assign_run, assign_task,
}
use agentic_harness.RunInvariants.{assert_terminal_run_patch}
use agentic_harness.Store.Monad.{
  Store, ok, threw, Action, run_not_found, plan_version_conflict, run_version_conflict,
  task_version_conflict, patch_refused,
}
use agentic_harness.Store.Events.{event}

-- The options that the operations read.
pub record Options : Type 0 where
  pub expected_version : Option ℕ
  pub max_attempts : Option ℕ
  pub reasoning_source : Option String

-- `expectedVersion !== undefined && current.state_version !== expectedVersion`
abbrev pub version_conflict : Option ℕ → ℕ → Bool
version_conflict none current = false
version_conflict (some expected) current = not (current == expected)

unfoldable pub get_run : String → Store → Option Run
get_run run_id s = lookup run_id s.runs

unfoldable pub get_task : String → Store → Option Task
get_task task_id s = lookup task_id s.tasks

unfoldable pub list_tasks : String → Store → List Task
list_tasks run_id s = keep (λ t. t.run_id =ₛ run_id) (values s.tasks)

unfoldable pub new_task : String → PlannedTask → Options → Task
new_task run_id t options = record {
  task_id = t.task_id;
  run_id = run_id;
  agent_id = t.agent_id;
  role = t.role;
  status = "routed";
  attempt = 0;
  max_attempts = or_else options.max_attempts 3;
  dependencies = t.dependencies;
  owned_paths = t.owned_paths;
  reasoning_level = t.reasoning_level;
  reasoning_source = options.reasoning_source;
  state_version = 0;
  activity_version = 0;
  workspace_path = none;
  completed_at = none;
  error_code = none;
  error_message = none;
  lease_owner = none;
  lease_expires_at = none;
  retry_not_before = none;
  cleanup_state = none;
}

-- A task whose identifier is there already is left as it is.
unfoldable pub insert_task : String → PlannedTask → Options → Store → Option Task × Store
unfolding new_task
insert_task run_id t options s = elim (lookup t.task_id s.tasks) [
  | some _ ↦ (none, s)
  | none ↦
      let row = new_task run_id t options in
      (some row, record s { tasks = put t.task_id row s.tasks })
]

abbrev collected : Option Task → List Task → List Task
collected none rows = rows
collected (some row) rows = row ∷ rows

-- The loop of `addTasks`: the rows inserted, in order.
unfoldable pub insert_tasks : String → List PlannedTask → Options → Store → List Task × Store
unfolding insert_task
insert_tasks run_id [] options s = ([], s)
insert_tasks run_id (t ∷ ts) options s =
    let first = insert_task run_id t options s in
    let rest = insert_tasks run_id ts options first.1 in (collected first.0 rest.0, rest.1)

module _ (host : Host) where
  unfoldable pub announce : String → List Task → Store → Store
  unfolding event
  announce run_id [] s = s
  announce run_id (row ∷ rows) s =
      event host run_id none "dag.tasks.materialized"
        (obj (field "taskIds" (strs (map (λ t. t.task_id) (row ∷ rows))) end)) s

  -- The event is written where a row was inserted.
  unfoldable pub add_tasks : String → List PlannedTask → Options → Store → List Task × Store
  unfolding insert_tasks announce
  add_tasks run_id ts options s =
      let (rows, s') = insert_tasks run_id ts options s in (rows, announce run_id rows s')

  unfoldable pub replace_plan : String → Plan → Options → Action Run
  unfolding event
  replace_plan run_id plan options s = elim (lookup run_id s.runs) [
    | none ↦ (threw (run_not_found run_id), s)
    | some current ↦
        if version_conflict options.expected_version current.state_version
        then (
          threw (
              plan_version_conflict run_id (or_else options.expected_version 0)
                current.state_version),
          s,
        )
        else let next = record current { plan = plan; state_version = current.state_version + 1 } in
          (
            ok next,
            event host run_id none "dag.plan.replaced"
                (obj (
                  field "phase" (str plan.phase) (field "taskCount" (num (length plan.tasks)) end)))
                (record s { runs = put run_id next s.runs }),
          )
  ]

unfoldable pub update_run : String → RunPatch → Options → Action (Option Run)
unfolding assign_run
update_run run_id patch options s = elim (lookup run_id s.runs) [
  | none ↦ (ok none, s)
  | some current ↦
      if version_conflict options.expected_version current.state_version
      then (
        threw (
            run_version_conflict run_id (or_else options.expected_version 0) current.state_version),
        s,
      )
      else elim (assert_terminal_run_patch current patch) [
        | some e ↦ (threw (patch_refused e), s)
        | none ↦
            let next = record (assign_run current patch) {
              state_version = current.state_version + 1;
            } in
            (ok (some next), record s { runs = put run_id next s.runs })
      ]
]

unfoldable pub update_task : String → TaskPatch → Options → Action (Option Task)
unfolding assign_task
update_task task_id patch options s = elim (lookup task_id s.tasks) [
  | none ↦ (ok none, s)
  | some current ↦
      if version_conflict options.expected_version current.state_version
      then (
        threw (
            task_version_conflict task_id (or_else options.expected_version 0)
              current.state_version),
        s,
      )
      else let next = record (assign_task current patch) {
        state_version = current.state_version + 1;
      } in
        (ok (some next), record s { tasks = put task_id next s.tasks })
]

unfoldable pub touch_task : String → Store → Option Task × Store
touch_task task_id s = elim (lookup task_id s.tasks) [
  | none ↦ (none, s)
  | some current ↦
      let next = record current {
        activity_version = current.activity_version + 1;
        state_version = current.state_version + 1;
      } in
      (some next, record s { tasks = put task_id next s.tasks })
]
