-- ===== src/Topology.antt =====
-- .agents/runtime/agent-topology.mjs: the roles of an agent in the orchestration and in its session.
-- A missing text is `none`.
pub mod Roles
use agentic_harness.Base.{String, not, ◌&&◌, Option, none, some, elem, ◌=ₛ◌, if◌then◌else◌}
use mathlib.Core.List.{List, [], ◌∷◌}

abbrev pub orchestration_roles : List String
orchestration_roles = "orchestrator" ∷ "specialist" ∷ []

abbrev pub interactive_modes : List String
interactive_modes = "primary" ∷ "subagent" ∷ []

abbrev pub session_roles : List String
session_roles = "primary" ∷ []

pub record Agent : Type 0 where
  pub id : String
  pub orchestration_role : String
  pub interactive_mode : String

pub record ExecutionTopology : Type 0 where
  pub orchestration_role : String
  pub interactive_mode : String
  pub session_role : String
  pub compatibility : Option String

pub data TopologyResult : Type 0 where
  invalid : String → TopologyResult
  topology : ExecutionTopology → TopologyResult

-- `none` where the agent is valid.
unfoldable pub validate_registry_topology : Agent → String → Option String
validate_registry_topology a orchestrator_id =
    let is_orchestrator = a.id =ₛ orchestrator_id in
    if not (elem a.orchestration_role orchestration_roles)
    then some "agent_orchestration_role_invalid"
    else if not (elem a.interactive_mode interactive_modes)
    then some "agent_interactive_mode_invalid"
    else if not (a.orchestration_role =ₛ (if is_orchestrator then "orchestrator" else "specialist"))
    then some "agent_orchestration_role_mismatch"
    else if not (a.interactive_mode =ₛ (if is_orchestrator then "primary" else "subagent"))
    then some "agent_interactive_mode_mismatch"
    else none

unfoldable pub topology_for_agent : Agent → TopologyResult
topology_for_agent a =
    if not (elem a.orchestration_role orchestration_roles)
    then invalid "agent_orchestration_role_invalid"
    else if not (elem a.interactive_mode interactive_modes)
    then invalid "agent_interactive_mode_invalid"
    else topology (record {
      orchestration_role = a.orchestration_role;
      interactive_mode = a.interactive_mode;
      session_role = "primary";
      compatibility = none;
    })

abbrev legacy_topology : ExecutionTopology
legacy_topology = record {
  orchestration_role = "specialist";
  interactive_mode = "subagent";
  session_role = "primary";
  compatibility = some "legacy-task-brief-v2";
}

abbrev resolve_given : ExecutionTopology → TopologyResult
resolve_given t =
    if not (elem t.orchestration_role orchestration_roles)
    then invalid "task_orchestration_role_invalid"
    else if not (elem t.interactive_mode interactive_modes)
    then invalid "task_interactive_mode_invalid"
    else if not (elem t.session_role session_roles)
    then invalid "task_session_role_invalid"
    else if t.orchestration_role =ₛ "orchestrator" && not (t.interactive_mode =ₛ "primary")
    then invalid "task_execution_topology_invalid"
    else if t.orchestration_role =ₛ "specialist" && not (t.interactive_mode =ₛ "subagent")
    then invalid "task_execution_topology_invalid"
    else topology (record t { compatibility = none })

-- The topology of a task brief.
unfoldable pub resolve_task_topology : Option ExecutionTopology → TopologyResult
resolve_task_topology none = topology legacy_topology
resolve_task_topology (some t) = resolve_given t
