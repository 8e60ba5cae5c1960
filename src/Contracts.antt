-- ===== src/Contracts.antt =====
-- .agents/runtime/event-driven-contracts.mjs: the statuses of tasks, the state of dependencies, the
-- envelope of a runtime message and its routing key.
pub mod Envelopes
use agentic_harness.Base.{
  ℕ, String, Bool, true, false, not, ◌&&◌, ◌||◌, Option, none, some, List, [], ◌∷◌, Dict, all, any,
  elem, lookup, is_blank, ◌=ₛ◌, if◌then◌else◌,
}
use agentic_harness.Rows.{Task}

abbrev pub terminal_task_statuses : List String
terminal_task_statuses = "integrated" ∷ "verified" ∷ "failed" ∷ "blocked" ∷ "cancelled" ∷ []

abbrev pub success_task_statuses : List String
success_task_statuses = "integrated" ∷ "verified" ∷ []

abbrev pub failed_task_statuses : List String
failed_task_statuses = "failed" ∷ "blocked" ∷ "cancelled" ∷ []

-- A status that is there and in the set.
abbrev pub has_status : List String → Option String → Bool
has_status set none = false
has_status set (some s) = elem s set

unfoldable pub dependencies_satisfied : Task → Dict String → Bool
dependencies_satisfied t states =
    all (λ d. has_status success_task_statuses (lookup d states)) t.dependencies

unfoldable pub dependencies_failed : Task → Dict String → Bool
dependencies_failed t states =
    any (λ d. has_status failed_task_statuses (lookup d states)) t.dependencies

abbrev pub message_kinds : List String
message_kinds =
    "agent.run.reconcile.v1" ∷ "agent.task.execute.v1" ∷ "agent.task.prefetch.v1"
    ∷ "agent.execution.finished.v1" ∷ "agent.workspace.cleanup.v1" ∷ "agent.continuation.wake.v1"
    ∷ []

abbrev pub taskless_kinds : List String
taskless_kinds = "agent.run.reconcile.v1" ∷ "agent.continuation.wake.v1" ∷ []

-- A missing text is the empty one. `dispatch_generation` is `none` where `Number(…)` is no integer
-- or is negative.
pub record Envelope : Type 0 where
  pub schema_version : String
  pub kind : String
  pub message_id : String
  pub run_id : String
  pub task_id : String
  pub dispatch_generation : Option ℕ
  pub continuation_id : String
  pub delivery_id : String
  pub effect_key : String

pub data EnvelopeError : Type 0 where
  version_invalid identity_missing generation_invalid task_identity_missing
        continuation_identity_missing :
      EnvelopeError
  kind_invalid : String → EnvelopeError

abbrev has_generation : Option ℕ → Bool
has_generation none = false
has_generation (some _) = true

-- `none` where the envelope is accepted.
unfoldable pub assert_envelope : Envelope → Option EnvelopeError
assert_envelope e =
    if not (e.schema_version =ₛ "agent-runtime-envelope/v1")
    then some version_invalid
    else if not (elem e.kind message_kinds)
    then some (kind_invalid e.kind)
    else if is_blank e.message_id || is_blank e.run_id
    then some identity_missing
    else if not (has_generation e.dispatch_generation)
    then some generation_invalid
    else if not (elem e.kind taskless_kinds) && is_blank e.task_id
    then some task_identity_missing
    else if e.kind =ₛ "agent.continuation.wake.v1"
        && (is_blank e.continuation_id || is_blank e.delivery_id || is_blank e.effect_key)
    then some continuation_identity_missing
    else none

-- `none` where the kind is refused.
unfoldable pub routing_key : String → Option String
routing_key kind =
    if kind =ₛ "agent.run.reconcile.v1"
    then some "scheduler.reconcile"
    else if kind =ₛ "agent.task.execute.v1"
    then some "task.execute"
    else if kind =ₛ "agent.task.prefetch.v1"
    then some "task.prefetch"
    else if kind =ₛ "agent.execution.finished.v1"
    then some "execution.finished"
    else if kind =ₛ "agent.workspace.cleanup.v1"
    then some "workspace.cleanup"
    else if kind =ₛ "agent.continuation.wake.v1"
    then some "continuation.wake"
    else none
