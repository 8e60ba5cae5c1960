-- ===== src/Store/Registration.antt =====
-- `registerContinuation`, `createRun`, `findActiveRunByContinuationTarget`.
use agentic_harness.Base.{
  ℕ, String, Bool, false, not, ◌&&◌, ◌||◌, Option, none, some, List, Json, null, num, str, obj, end,
  field, strs, opt_str, ◌==◌, ◌=ₛ◌, length, or_else, is_truthy, opt_eq, trim, same_texts, lookup,
  put, if◌then◌else◌,
}
use agentic_harness.Host.{Host}
use agentic_harness.Rows.{Plan, Reasoning, Run, Continuation}
use agentic_harness.Continuation.{
  continuation_schema_version, normalize_wake_events, run_status_to_event, continuation_id_of,
}
use agentic_harness.Store.Monad.{
  Store, ok, threw, Action, pure, ◌>>◌, modify, wake_event_invalid, prompt_identity_required,
  rebind_not_allowed,
}
use agentic_harness.Store.Events.{event}
use agentic_harness.Store.Runs.{Options, insert_tasks}
use agentic_harness.Store.Wakes.{materialize_wake}

pub record Registration : Type 0 where
  pub adapter_id : Option String
  pub session_id : String
  pub server_url : String
  pub directory : Option String
  pub wake_on : Option (List String)
  pub agent_id : String
  pub provider_id : String
  pub model_id : String
  pub variant : String
  pub source_message_id : String

-- `String(value ?? "").trim() || null`
abbrev trimmed_or_null : String → Option String
trimmed_or_null s = let t = trim s in if is_truthy t then some t else none

abbrev adapter_of : Registration → String
adapter_of r = or_else r.adapter_id "opencode"

-- The registration names the target, the events and the prompt identity of the row.
unfoldable pub same_registration : Continuation → Registration → List String → Bool
unfolding trim
same_registration c r events =
    c.session_adapter_id =ₛ adapter_of r
    && c.opencode_session_id =ₛ r.session_id
    && c.opencode_server_url =ₛ r.server_url
    && opt_eq c.opencode_directory r.directory
    && same_texts c.wake_events events
    && c.session_agent_id =ₛ trim r.agent_id
    && c.session_provider_id =ₛ trim r.provider_id
    && c.session_model_id =ₛ trim r.model_id
    && opt_eq c.session_model_variant (trimmed_or_null r.variant)
    && opt_eq c.session_prompt_message_id (trimmed_or_null r.source_message_id)

abbrev pub identity_missing : Registration → Bool
identity_missing r =
    not (is_truthy (trim r.agent_id))
    || not (is_truthy (trim r.provider_id))
    || not (is_truthy (trim r.model_id))

unfoldable pub rebind_refused : Option Continuation → Registration → List String → Bool
unfolding same_registration
rebind_refused none r events = false
rebind_refused (some c) r events =
    not (c.generation == 0) || not (c.status =ₛ "parked") || not (same_registration c r events)

abbrev first_created : Option Continuation → String → String
first_created none at = at
first_created (some c) at = c.created_at

module _ (host : Host) where
  unfoldable pub new_continuation :
      String → Registration → List String → Option Continuation → String → Continuation
  new_continuation run_id r events existing at = record {
    continuation_id = continuation_id_of host run_id (adapter_of r) r.session_id;
    run_id = run_id;
    schema_version = continuation_schema_version;
    session_adapter_id = adapter_of r;
    opencode_session_id = r.session_id;
    opencode_server_url = r.server_url;
    opencode_directory = r.directory;
    wake_events = events;
    session_agent_id = trim r.agent_id;
    session_provider_id = trim r.provider_id;
    session_model_id = trim r.model_id;
    session_model_variant = trimmed_or_null r.variant;
    session_prompt_message_id = trimmed_or_null r.source_message_id;
    status = "parked";
    generation = 0;
    current_delivery_id = none;
    created_at = first_created existing at;
    updated_at = at;
    cancelled_at = none;
  }

  unfoldable pub park : String → Continuation → Store → Store
  unfolding event
  park run_id c s =
      event host run_id none "continuation.parked"
        (obj (
          field "continuationId" (str c.continuation_id) (
            field "adapterId" (str c.session_adapter_id) (
              field "sessionId" (str c.opencode_session_id) (
                field "opencodeSessionId" (str c.opencode_session_id)
                  (field "wakeOn" (strs c.wake_events) end))))))
        (record s { continuations = put run_id c s.continuations })

  -- A run that has ended already wakes the session at once.
  unfoldable pub wake_if_ended : String → String → Action (Unit {0})
  unfolding materialize_wake
  wake_if_ended run_id at s = elim (lookup run_id s.runs) [
    | none ↦ (ok tt, s)
    | some run ↦ elim (run_status_to_event run.status) [
      | none ↦ (ok tt, s)
      | some _ ↦ (materialize_wake host run_id (some run.status) at >> pure tt) s
    ]
  ]

  -- The row that is returned: `materializeContinuationWake` may have changed it.
  abbrev pub current_row : String → Continuation → Action Continuation
  current_row run_id c s = (ok (or_else (lookup run_id s.continuations) c), s)

  unfoldable pub register_continuation : String → Registration → String → Action Continuation
  unfolding rebind_refused new_continuation park wake_if_ended
  register_continuation run_id r at s = elim (normalize_wake_events r.wake_on) [
    | none ↦ (threw wake_event_invalid, s)
    | some events ↦
        if identity_missing r
        then (threw prompt_identity_required, s)
        else if rebind_refused (lookup run_id s.continuations) r events
        then (threw (rebind_not_allowed run_id), s)
        else let c = new_continuation run_id r events (lookup run_id s.continuations) at in
          (wake_if_ended run_id at >> current_row run_id c) (park run_id c s)
  ]

-- The options of `createRun`.
pub record CreateOptions : Type 0 where
  pub base : Options
  pub executor : Option String
  pub executor_command : Option String
  pub workspace_mode : Option String
  pub max_parallel : Option ℕ
  pub engine : Option String
  pub graph_version : Option String
  pub continuation : Option Registration

abbrev either : Option String → Option String → Option String
either none b = b
either (some a) b = some a

abbrev no_reasoning : Reasoning
no_reasoning = record { mode = none; source = none; initial_level = none; confidence = none }

unfoldable pub new_run : Plan → CreateOptions → Run
new_run plan o = record {
  run_id = plan.run_id;
  request = plan.request;
  status = "routed";
  plan = plan;
  executor = either o.executor o.executor_command;
  workspace_mode = o.workspace_mode;
  max_parallel = or_else o.max_parallel 1;
  peak_parallel = 0;
  created_at = plan.created_at;
  engine = or_else o.engine "dynamic-dag-v2";
  graph_version = o.graph_version;
  state_version = 0;
  reasoning = or_else plan.reasoning no_reasoning;
  started_at = none;
  completed_at = none;
  runtime_driver = none;
}

-- `plan.reasoning ?? null`
abbrev reasoning_json : Option Reasoning → Json
reasoning_json none = null
reasoning_json (some r) = obj (
    field "mode" (opt_str r.mode) (
      field "source" (opt_str r.source) (
        field "initialLevel" (opt_str r.initial_level)
          (field "confidence" (opt_str r.confidence) end))))

module _ (host : Host) where
  abbrev pub register_option : String → Option Registration → String → Action (Unit {0})
  register_option run_id none at s = (ok tt, s)
  register_option run_id (some r) at s = (register_continuation host run_id r at >> pure tt) s

  abbrev routed_event : Plan → CreateOptions → Store → Store
  routed_event plan o s =
      event host plan.run_id none "run.routed"
        (obj (
          field "taskCount" (num (length plan.tasks)) (
            field "maxParallel" (num (or_else o.max_parallel 1)) (
              field "reasoning" (reasoning_json plan.reasoning) (
                field "bootstrapReviewTopology" plan.topology
                  (field "bootstrapReviewDependencies" plan.review_dependencies end))))))
        s

  unfoldable pub create_run : Plan → CreateOptions → String → Action (Unit {0})
  unfolding new_run insert_tasks register_continuation event
  create_run plan o at s =
      let s₁ = record s { runs = put plan.run_id (new_run plan o) s.runs } in
      let s₂ = (insert_tasks plan.run_id plan.tasks o.base s₁).1 in
      (register_option plan.run_id o.continuation at >> modify (routed_event plan o)) s₂
