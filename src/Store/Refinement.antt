-- ===== src/Store/Refinement.antt =====
-- `applyBootstrapPlanRefinement`: a change of the plan, of the tasks and of their dependencies
-- that is applied whole or undone.
use agentic_harness.Base.{
  ◌+◌, String, Bool, false, not, ◌||◌, Option, none, some, List, [], ◌∷◌, map, Json, Items, str,
  obj, arr, nil, cons, end, field, strs, Dict, ◌==◌, ◌=ₛ◌, elem, take, length, or_else, is_truthy,
  lookup, put, without, if◌then◌else◌,
}
use agentic_harness.Host.{Host}
use agentic_harness.Rows.{Plan, PlannedTask, Run, Task}
use agentic_harness.Store.Monad.{
  Store, Result, ok, threw, Action, ◌>>◌, run_not_found, plan_version_conflict,
  refinement_task_missing, refinement_removal_unsafe, refinement_already_started,
}
use agentic_harness.Store.Events.{event}
use agentic_harness.Store.Runs.{Options, version_conflict, insert_tasks}

pub record DependencyUpdate : Type 0 where
  pub task_id : String
  pub dependencies : List String

pub record Refinement : Type 0 where
  pub options : Options
  pub removed_task_ids : List String
  pub dependency_updates : List DependencyUpdate
  pub added_tasks : List PlannedTask

abbrev pub unstarted_statuses : List String
unstarted_statuses = "routed" ∷ "retrying" ∷ []

-- A path that is set and not empty.
abbrev has_path : Option String → Bool
has_path none = false
has_path (some p) = is_truthy p

-- The guard of a removal. The store has neither `artifacts` nor `executionResults`, so the tests
-- on those are false.
unfoldable pub removal_unsafe : Task → Bool
removal_unsafe t =
    not (elem t.status unstarted_statuses) || not (t.attempt == 0) || has_path t.workspace_path

unfoldable pub remove_task : String → String → Action (Unit {0})
unfolding removal_unsafe
remove_task run_id task_id s = elim (lookup task_id s.tasks) [
  | none ↦ (threw (refinement_task_missing task_id), s)
  | some t ↦
      if not (t.run_id =ₛ run_id)
      then (threw (refinement_task_missing task_id), s)
      else if removal_unsafe t
      then (threw (refinement_removal_unsafe task_id t.status), s)
      else (ok tt, record s { tasks = without task_id s.tasks })
]

unfoldable pub remove_tasks : String → List String → Action (Unit {0})
unfolding remove_task
remove_tasks run_id [] s = (ok tt, s)
remove_tasks run_id (id ∷ ids) s = (remove_task run_id id >> remove_tasks run_id ids) s

unfoldable pub update_dependencies : String → DependencyUpdate → Action (Unit {0})
update_dependencies run_id u s = elim (lookup u.task_id s.tasks) [
  | none ↦ (threw (refinement_task_missing u.task_id), s)
  | some t ↦
      if not (t.run_id =ₛ run_id)
      then (threw (refinement_task_missing u.task_id), s)
      else if not (elem t.status unstarted_statuses)
      then (threw (refinement_already_started u.task_id t.status), s)
      else let next = record t {
        dependencies = u.dependencies;
        state_version = t.state_version + 1;
      } in
        (ok tt, record s { tasks = put u.task_id next s.tasks })
]

unfoldable pub update_all_dependencies : String → List DependencyUpdate → Action (Unit {0})
unfolding update_dependencies
update_all_dependencies run_id [] s = (ok tt, s)
update_all_dependencies run_id (u ∷ us) s =
    (update_dependencies run_id u >> update_all_dependencies run_id us) s

abbrev update_items : List DependencyUpdate → Items
update_items [] = nil
update_items (u ∷ us) =
    cons (obj (field "taskId" (str u.task_id) (field "dependencies" (strs u.dependencies) end)))
      (update_items us)

abbrev refined_payload : Plan → Refinement → Json
refined_payload plan r = obj (
    field "topologyRevision" plan.topology_revision (
      field "authority" plan.topology_authority (
        field "addedTaskIds" (strs (map (λ t. t.task_id) r.added_tasks)) (
          field "removedTaskIds" (strs r.removed_task_ids)
            (field "dependencyUpdates" (arr (update_items r.dependency_updates)) end)))))

module _ (host : Host) (run_id : String) (plan : Plan) (r : Refinement) where
  -- What follows the two loops of the `try` block. The run is the object that was read above them.
  unfoldable pub commit_refinement : Run → Action Run
  unfolding insert_tasks event
  commit_refinement current s =
      let s' = (insert_tasks run_id r.added_tasks r.options s).1 in
      let next = record current { plan = plan; state_version = current.state_version + 1 } in
      (
        ok next,
        event host run_id none "dag.bootstrap_refined" (refined_payload plan r)
            (record s' { runs = put run_id next s'.runs }),
      )

  -- The `try` block, from the run that its first line reads.
  unfoldable pub try_from : Option Run → Action Run
  unfolding remove_tasks update_all_dependencies commit_refinement
  try_from none s = (threw (run_not_found run_id), s)
  try_from (some current) s =
      if version_conflict r.options.expected_version current.state_version
      then (
        threw (
            plan_version_conflict run_id (or_else r.options.expected_version 0)
              current.state_version),
        s,
      )
      else (remove_tasks run_id r.removed_task_ids
            >> (update_all_dependencies run_id r.dependency_updates >> commit_refinement current))
          s

  unfoldable pub try_refinement : Action Run
  unfolding try_from
  try_refinement s = try_from (lookup run_id s.runs) s

  abbrev pub restored_runs : Option Run → Dict Run → Dict Run
  restored_runs (some snapshot) runs = put run_id snapshot runs
  restored_runs none runs = without run_id runs

  -- The `catch` block, with what was saved before the `try`: the run and the store's other parts.
  abbrev pub restore : Store → Store → Store
  restore before after = record after {
    runs = restored_runs (lookup run_id before.runs) after.runs;
    tasks = before.tasks;
    events = take (length before.events) after.events;
    event_sequence = before.event_sequence;
  }

  abbrev pub caught : Store → Result Run → Store → Result Run × Store
  caught before (ok run) after = (ok run, after)
  caught before (threw e) after = (threw e, restore before after)

  unfoldable pub apply_refinement : Action Run
  unfolding try_refinement
  apply_refinement s = caught s (try_refinement s).0 (try_refinement s).1
