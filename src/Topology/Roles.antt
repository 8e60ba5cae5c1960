-- ===== src/Topology/Roles.antt =====
-- .agents/runtime/agent-topology.mjs: the registry and the task briefs agree.
use agentic_harness.Base.{
  String, ◌≡◌, refl, sym, subst, true, false, none, some, arith, ◌=ₛ◌, eq_iff,
}
use agentic_harness.Topology.{
  Agent, ExecutionTopology, topology, validate_registry_topology, topology_for_agent,
  resolve_task_topology,
}

-- A text that is one of two different texts is not the other one.
other_text : (s a b : String) → (a =ₛ b) ≡ false → (s =ₛ a) ≡ true → (s =ₛ b) ≡ false
other_text s a b differ same = subst (λ x. (x =ₛ b) ≡ false) (sym ((eq_iff s a).0 same)) differ

-- An agent that the registry accepts gets an execution topology, and a task brief that carries this
-- topology resolves to it.
pub topology-roundtrip :
    (a : Agent) (orchestrator_id : String)
    → validate_registry_topology a orchestrator_id ≡ none
    → (t : ExecutionTopology) × (topology_for_agent a ≡ topology t)
      × (resolve_task_topology (some t) ≡ topology t)
unfolding validate_registry_topology topology_for_agent resolve_task_topology
topology-roundtrip a orchestrator_id valid = (
  record {
    orchestration_role = a.orchestration_role;
    interactive_mode = a.interactive_mode;
    session_role = "primary";
    compatibility = none;
  },
  ground arith,
  ground (
    arith,
    other_text a.orchestration_role "orchestrator" "specialist" refl,
    other_text a.interactive_mode "primary" "subagent" refl,
  ),
)
