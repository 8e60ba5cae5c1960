-- ===== src/Store/Wakes.antt =====
-- `materializeContinuationWake`, `repairTerminalContinuationWakes`, `cancelContinuation` and
-- `listContinuationDeliveries`: the deliveries that wake a parked session when its run ends.
use Prim.Native.String.{◌++◌}
use agentic_harness.Base.{
  ℕ, ◌+◌, String, Bool, true, false, not, ◌&&◌, Option, none, some, List, [], ◌∷◌, num, str, obj,
  end, field, Dict, ◌==◌, ◌=ₛ◌, elem, find, take, is_some, is_truthy, opt_eq, lookup, put, values,
  max, if◌then◌else◌,
}
use agentic_harness.Host.{Host}
use agentic_harness.Rows.{Run, Continuation, Delivery}
use agentic_harness.Continuation.{
  delivery_schema_version, run_status_to_event, build_effect_key, build_prompt, prompt_fingerprint,
  delivery_id_of, occurrence_key,
}
use agentic_harness.Store.Monad.{
  Store, ok, threw, Action, pure, ◌>>=◌, completed_at_missing, session_adapter_unknown,
}
use agentic_harness.Store.Events.{event}

-- What a materialization returns: the delivery and whether it is new.
pub record Wake : Type 0 where
  pub delivery : Delivery
  pub created : Bool

-- A column that is set and not empty.
abbrev pub present : Option String → Bool
present none = false
present (some t) = is_truthy t

-- The event for which a wake is due: the guards of `materializeContinuationWake` that return null.
unfoldable pub due_event : Option Continuation → Option Run → Option String → Option String
due_event none run status = none
due_event (some c) none status = none
due_event (some c) (some run) status =
    if c.status =ₛ "cancelled"
    then none
    else if is_some status && not (opt_eq status (some run.status))
    then none
    else elim (run_status_to_event run.status) [
      | none ↦ none
      | some event_type ↦ if elem event_type c.wake_events then some event_type else none
    ]

-- `Object.assign(continuation, …)`
unfoldable pub woken : Continuation → Delivery → String → Continuation
woken c d at = record c {
  status = "wake_pending";
  generation = d.generation;
  current_delivery_id = some d.delivery_id;
  updated_at = at;
}

module _ (host : Host) where
  unfoldable pub wake_key : Continuation → String → String → String → String
  wake_key c run_id completed_at event_type =
      build_effect_key host c.continuation_id run_id (occurrence_key completed_at) event_type

  unfoldable pub new_delivery :
      Continuation → String → String → String → String → String → String → Delivery
  new_delivery c run_id completed_at event_type key message_id created_at =
      let prompt = build_prompt host run_id event_type key (c.generation + 1) in
      record {
        delivery_id = delivery_id_of host key;
        continuation_id = c.continuation_id;
        run_id = run_id;
        schema_version = delivery_schema_version;
        generation = c.generation + 1;
        event_type = event_type;
        terminal_occurrence_key = occurrence_key completed_at;
        effect_key = key;
        opencode_message_id = message_id;
        prompt_text = prompt;
        prompt_sha256 = prompt_fingerprint host prompt;
        status = "pending";
        attempts = 0;
        created_at = created_at;
        updated_at = created_at;
        accepted_at = none;
        observed_at = none;
        completed_at = none;
        last_error = none;
      }

  -- The writes of a new delivery: the delivery, the continuation and the event.
  unfoldable pub record_wake : Continuation → String → Delivery → String → Store → Store
  unfolding woken event
  record_wake c run_id d created_at s =
      event host run_id none "continuation.wake_materialized"
        (obj (
          field "continuationId" (str c.continuation_id) (
            field "deliveryId" (str d.delivery_id) (
              field "effectKey" (str d.effect_key) (
                field "eventType" (str d.event_type)
                  (field "generation" (num d.generation) end))))))
        (record s {
          deliveries = put d.delivery_id d s.deliveries;
          continuations = put run_id (woken c d created_at) s.continuations;
        })

  -- A due wake of a run that ended at `completed_at`.
  unfoldable pub wake_at : Continuation → String → String → String → String → Action (Option Wake)
  unfolding wake_key new_delivery record_wake
  wake_at c run_id completed_at event_type created_at s =
      let key = wake_key c run_id completed_at event_type in
      elim (find (λ d. d.effect_key =ₛ key) (values s.deliveries)) [
        | some existing ↦ (ok (some (record { delivery = existing; created = false })), s)
        | none ↦ elim (host.message_id c.session_adapter_id key created_at) [
          | none ↦ (threw (session_adapter_unknown c.session_adapter_id), s)
          | some message_id ↦
              let d = new_delivery c run_id completed_at event_type key message_id created_at in
              (
                ok (some (record { delivery = d; created = true })),
                record_wake c run_id d created_at s,
              )
        ]
      ]

  -- `if (!run.completed_at) throw`
  unfoldable pub wake_of :
      Continuation → String → Option String → String → String → Action (Option Wake)
  unfolding wake_at
  wake_of c run_id none event_type created_at s = (threw (completed_at_missing run_id), s)
  wake_of c run_id (some completed_at) event_type created_at s =
      if is_truthy completed_at
      then wake_at c run_id completed_at event_type created_at s
      else (threw (completed_at_missing run_id), s)

  unfoldable pub dispatch_wake :
      Option Continuation → Option Run → Option String → String → String → Action (Option Wake)
  unfolding wake_of
  dispatch_wake (some c) (some run) (some event_type) run_id created_at s =
      wake_of c run_id run.completed_at event_type created_at s
  dispatch_wake _ _ _ run_id created_at s = (ok none, s)

  -- `created_at` is the `nowIso()` of the call.
  unfoldable pub materialize_wake : String → Option String → String → Action (Option Wake)
  unfolding dispatch_wake due_event
  materialize_wake run_id status created_at s =
      let c = lookup run_id s.continuations in
      let run = lookup run_id s.runs in
      dispatch_wake c run (due_event c run status) run_id created_at s

  abbrev repaired_of : Option Wake → List String → List String
  repaired_of none ids = ids
  repaired_of (some w) ids = if w.created then w.delivery.delivery_id ∷ ids else ids

  -- The loop of `repairTerminalContinuationWakes` over the runs that were read at its start; the
  -- tests read each run as it is now.
  unfoldable pub repair_runs : List Run → (ℕ → String) → ℕ → Action (List String)
  unfolding materialize_wake
  repair_runs [] clock n s = (ok [], s)
  repair_runs (run ∷ runs) clock n s = elim (run_status_to_event run.status) [
    | none ↦ repair_runs runs clock (n + 1) s
    | some _ ↦
        (do
          w ← materialize_wake run.run_id (some run.status) (clock n)
          ids ← repair_runs runs clock (n + 1)
          pure (repaired_of w ids))
          s
  ]

  -- `Math.max(1, Number(limit) || 200)`
  abbrev repair_limit : ℕ → ℕ
  repair_limit limit = max 1 (if limit == 0 then 200 else limit)

  unfoldable pub repair_wakes : ℕ → (ℕ → String) → Action (List String)
  unfolding repair_runs
  repair_wakes limit clock s = repair_runs (take (repair_limit limit) (values s.runs)) clock 0 s

abbrev open_statuses : List String
open_statuses = "pending" ∷ "claimed" ∷ "deferred" ∷ []

-- The tests of the loop of `cancelContinuation`: the delivery is of the continuation, is not over,
-- and the session has not taken it.
unfoldable pub is_cancellable : String → Delivery → Bool
is_cancellable continuation_id d =
    d.continuation_id =ₛ continuation_id
    && elem d.status open_statuses
    && not (present d.accepted_at)
    && not (present d.observed_at)

abbrev first_set : Option String → String → Option String
first_set none d = some d
first_set (some t) d = some t

unfoldable pub kill : String → String → Delivery → Delivery
kill at error d = record d {
  status = "dead";
  completed_at = first_set d.completed_at at;
  updated_at = at;
  last_error = first_set d.last_error error;
}

-- The loop: the deliveries after it and how many were killed.
unfoldable pub kill_all : String → String → String → Dict Delivery → Dict Delivery × ℕ
unfolding is_cancellable kill
kill_all continuation_id at error [] = ([], 0)
kill_all continuation_id at error ((k, d) ∷ rest) =
    let (rest', n) = kill_all continuation_id at error rest in
    if is_cancellable continuation_id d
    then ((k, kill at error d) ∷ rest', n + 1)
    else ((k, d) ∷ rest', n)

pub data Cancellation : Type 0 where
  not_bound : Cancellation
  already_cancelled : String → Cancellation
  cancelled : String → ℕ → Cancellation

unfoldable pub cancelled_row : Continuation → String → Continuation
cancelled_row c at = record c {
  status = "cancelled";
  cancelled_at = first_set c.cancelled_at at;
  updated_at = at;
}

module _ (host : Host) where
  unfoldable pub cancel_continuation : String → String → String → Store → Cancellation × Store
  unfolding kill_all cancelled_row event
  cancel_continuation run_id reason at s = elim (lookup run_id s.continuations) [
    | none ↦ (not_bound, s)
    | some c ↦
        if c.status =ₛ "cancelled"
        then (already_cancelled c.continuation_id, s)
        else let next = cancelled_row c at in
          let error = "continuation_cancelled:" ++ reason in
          let killed = kill_all c.continuation_id at error s.deliveries in
          (
            cancelled c.continuation_id killed.1,
            event host run_id none "continuation.cancelled"
                (obj (
                  field "continuationId" (str c.continuation_id)
                    (field "reason" (str reason) (field "deadDeliveries" (num killed.1) end))))
                (record s {
                  continuations = put run_id next s.continuations;
                  deliveries = killed.0;
                }),
          )
  ]
