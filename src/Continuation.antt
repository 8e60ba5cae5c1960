-- ===== src/Continuation.antt =====
-- .agents/runtime/continuation.mjs: the events that wake a parked session, the key that makes a
-- wake unique, and the prompt that it sends.
use Prim.Native.String.{◌++◌, slice}
use agentic_harness.Base.{
  ℕ, String, not, Option, none, some, List, [], ◌∷◌, map, keep, unique, elem, trim, is_truthy, ◌=ₛ◌,
  if◌then◌else◌,
}
use agentic_harness.Host.{Host}

abbrev pub delivery_schema_version : String
delivery_schema_version = "agent-continuation-delivery/v1"

abbrev pub continuation_schema_version : String
continuation_schema_version = "agent-continuation/v2"

abbrev pub continuation_wake_events : List String
continuation_wake_events = "run.completed" ∷ "run.failed" ∷ "run.blocked" ∷ "run.cancelled" ∷ []

abbrev requested_events : Option (List String) → List String
requested_events none = continuation_wake_events
requested_events (some []) = continuation_wake_events
requested_events (some (x ∷ xs)) = x ∷ xs

abbrev checked_events : List String → List String → Option (List String)
checked_events normalized [] = some normalized
checked_events normalized (_ ∷ _) = none

-- `none` where an event that is not a wake event is refused.
unfoldable pub normalize_wake_events : Option (List String) → Option (List String)
normalize_wake_events value =
    let normalized = unique (keep is_truthy (map trim (requested_events value))) in
    checked_events normalized (keep (λ item. not (elem item continuation_wake_events)) normalized)

unfoldable pub run_status_to_event : String → Option String
unfolding trim
run_status_to_event status =
    let key = trim status in
    if key =ₛ "closed"
    then some "run.completed"
    else if key =ₛ "failed"
    then some "run.failed"
    else if key =ₛ "blocked"
    then some "run.blocked"
    else if key =ₛ "cancelled"
    then some "run.cancelled"
    else none

module _ (host : Host) where
  -- The identity object as JSON, its keys in order.
  unfoldable pub effect_identity : String → String → String → String → String
  effect_identity continuation_id run_id occurrence event_type =
      "{\"continuationId\":"
      ++ (host.quote continuation_id
          ++ (",\"eventType\":"
              ++ (host.quote event_type
                  ++ (",\"runId\":"
                      ++ (host.quote run_id
                          ++ (",\"schemaVersion\":"
                              ++ (host.quote delivery_schema_version
                                  ++ (",\"terminalOccurrenceKey\":"
                                      ++ (host.quote occurrence ++ "}")))))))))

  unfoldable pub build_effect_key : String → String → String → String → String
  build_effect_key continuation_id run_id occurrence event_type =
      "sha256:" ++ host.sha256 (effect_identity continuation_id run_id occurrence event_type)

  unfoldable pub build_prompt : String → String → String → ℕ → String
  build_prompt run_id event_type effect_key generation =
      "Agentic Harness Runtime V2 continuation event.\n\nrunId: "
      ++ (run_id
          ++ ("\nevent: "
              ++ (event_type
                  ++ ("\ncontinuationGeneration: "
                      ++ (host.show generation
                          ++ ("\nclip-continuation-effect: "
                              ++ (effect_key
                                  ++ ("\n\nThe authoritative Runtime V2 state changed while this session was parked.\nCall context-engine agent_summary exactly once with runId "
                                      ++ (run_id ++ prompt_rules)))))))))
    where
      prompt_rules : String
      prompt_rules =
          ", then continue the original user conversation from that authoritative state.\nIf this run is terminal, give the user the final outcome for the original request and end this resumed assistant turn. Do not re-enter delivery for the same completed request.\nDo not call agent_start again for this same run/request. A distinct follow-up Runtime run is allowed only when the original user request explicitly requires a separate subsequent delivery operation.\nCall context_efficiency with this runId only when the original user request explicitly requires run-scoped performance/token evidence.\nDo not call agent_wait, agent_status, or agent_progress merely to rediscover this already-delivered terminal event.\nExternal qualification, fault injection, promotion gates, and harness verdicts are owned by the host qualification controller, not by this resumed user-facing turn."

  unfoldable pub prompt_fingerprint : String → String
  prompt_fingerprint prompt = "sha256:" ++ host.sha256 prompt

  unfoldable pub continuation_id_of : String → String → String → String
  continuation_id_of run_id adapter session =
      "agent-continuation-"
      ++ slice (host.sha256 (run_id ++ ("|" ++ (adapter ++ ("|" ++ session))))) 0 32

  unfoldable pub delivery_id_of : String → String
  delivery_id_of effect_key = "continuation-delivery-" ++ slice (host.sha256 effect_key) 0 32

  unfoldable pub effect_event_id : String → String
  effect_event_id effect_key = "event-effect-" ++ slice (host.sha256 effect_key) 0 40

  -- `progressReceiptEventId` of .agents/runtime/progress.mjs
  unfoldable pub receipt_event_id : String → String
  receipt_event_id source_event_id =
      "agent-progress-toast-" ++ slice (host.sha256 source_event_id) 0 40

unfoldable pub occurrence_key : String → String
occurrence_key completed_at = "completed-at:" ++ completed_at
