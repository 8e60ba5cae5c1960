-- ===== src/Watchdog.antt =====
-- scripts/qualification/lib/continuation-watchdog.mjs: the verdict on the observation of a
-- continuation's delivery. Times are milliseconds since 1970; a violation is modelled by its message
-- and its class, without the evidence that it repeats.
pub mod Verdicts
use agentic_harness.Base.{
  ℕ, ◌+◌, ◌-◌, String, Bool, false, not, ◌&&◌, ◌||◌, Option, none, some, List, [], ◌∷◌, ltb, leb,
  elem, trim, is_blank, is_some, is_truthy, or_else, ◌=ₛ◌, if◌then◌else◌,
}

abbrev pub default_completion_timeout_ms : ℕ
default_completion_timeout_ms = 900000

abbrev pub completion_settle_grace_ms : ℕ
completion_settle_grace_ms = 30000

-- `Date.parse` of a finite date, and `toLowerCase`.
pub record Texts : Type 0 where
  pub parse : String → Option ℕ
  pub lower : String → String

-- A missing text is empty; a number is `none` where `Number(…)` is not finite.
pub record Delivery : Type 0 where
  pub delivery_id : String
  pub effect_key : String
  pub message_id : String
  pub has_prompt_text : Bool
  pub status : String
  pub created_at : String
  pub generation : Option ℕ
  pub attempts : Option ℕ
  pub dispatch_started_at : String
  pub accepted_at : String
  pub observed_at : String
  pub last_error : String

pub record Outbox : Type 0 where
  pub message_id : String
  pub published_at : String
  pub publish_count : ℕ

pub record Inbox : Type 0 where
  pub status : String
  pub last_error : String
  pub delivery_count : ℕ

pub record Observed : Type 0 where
  pub delivery : Option Delivery
  pub continuation_status : String
  pub outbox : Option Outbox
  pub inbox : Option Inbox

-- `watch_started_at_ms` is `Number(watchStartedAtMs)`, which is 0 where nothing is given.
pub record Limits : Type 0 where
  pub completion_timeout_ms : ℕ
  pub acceptance_stall_timeout_ms : ℕ
  pub settle_grace_ms : ℕ
  pub watch_started_at_ms : ℕ

pub record Violation : Type 0 where
  pub classification : Option String
  pub message : String

pub record Verdict : Type 0 where
  pub terminal : Option Delivery
  pub violation : Option Violation

abbrev pub pending : Verdict
pending = record { terminal = none; violation = none }

abbrev pub violated : String → Verdict
violated m = record {
  terminal = none;
  violation = some (record { classification = none; message = m });
}

abbrev pub classed : String → String → Verdict
classed c m = record {
  terminal = none;
  violation = some (record { classification = some c; message = m });
}

abbrev pub ended : Delivery → Verdict
ended d = record { terminal = some d; violation = none }

abbrev pub failed_deliveries : List String
failed_deliveries = "dead" ∷ "ambiguous" ∷ []

abbrev pub failed_continuations : List String
failed_continuations = "manual_review" ∷ "cancelled" ∷ []

abbrev pub has_shape : Delivery → String → Bool
has_shape d continuation_status =
    not (is_blank d.delivery_id)
    && not (is_blank d.effect_key)
    && not (is_blank d.message_id)
    && d.has_prompt_text
    && not (is_blank d.status)
    && not (is_blank d.created_at)
    && is_some d.generation
    && is_some d.attempts
    && not (is_blank continuation_status)

abbrev pub predispatch_outage_errors : List String
predispatch_outage_errors =
    "agent_continuation_target_message_get_failed" ∷ "agent_continuation_session_status_failed" ∷ []

abbrev pub is_published : Option Outbox → Bool
is_published none = false
is_published (some o) = is_truthy o.message_id && is_truthy o.published_at && leb 1 o.publish_count

module _ (texts : Texts) where
  -- `epoch(value)`
  unfoldable pub epoch : String → Option ℕ
  epoch value = if is_truthy value then texts.parse value else none

  -- `String(value).trim().toLowerCase()`
  abbrev pub normal : String → String
  normal s = texts.lower (trim s)

  abbrev pub has_failed : Delivery → String → Bool
  has_failed d continuation_status =
      elem (normal d.status) failed_deliveries
      || elem (normal continuation_status) failed_continuations

  -- The delivery has been observed.
  abbrev pub on_observed : Delivery → ℕ → Option ℕ → Verdict
  on_observed d observed none = violated "continuation_observed_without_acceptance"
  on_observed d observed (some accepted) =
      if ltb observed accepted then violated "continuation_observed_before_accepted" else ended d

  -- The delivery has been accepted and not been observed.
  abbrev pub on_accepted : Limits → ℕ → ℕ → Option ℕ → Verdict
  on_accepted l now accepted dispatched =
      if ltb (or_else dispatched accepted + l.completion_timeout_ms + l.settle_grace_ms) now
      then violated "continuation_completion_deadline_exceeded_without_runtime_terminal_disposition"
      else pending

  -- The delivery has not been accepted.
  abbrev pub on_created : Limits → ℕ → Option ℕ → Verdict
  on_created l now none = pending
  on_created l now (some created) =
      if ltb l.acceptance_stall_timeout_ms (now - created)
      then violated "continuation_acceptance_stalled"
      else pending

  abbrev pub by_times :
      Delivery → Limits → ℕ → (observed accepted dispatched created : Option ℕ) → Verdict
  by_times d l now (some o) accepted dispatched created = on_observed d o accepted
  by_times d l now none (some a) dispatched created = on_accepted l now a dispatched
  by_times d l now none none dispatched created = on_created l now created

  unfoldable pub observe_delivery : Delivery → String → Limits → ℕ → Verdict
  unfolding epoch
  observe_delivery d continuation_status l now =
      if not (has_shape d continuation_status)
      then classed "QUALIFICATION PROCEDURE" "continuation_observation_shape_invalid"
      else if has_failed d continuation_status
      then violated "continuation_delivery_terminal_failure"
      else by_times d l now (epoch d.observed_at) (epoch d.accepted_at)
          (epoch d.dispatch_started_at) (epoch d.created_at)

  abbrev pub observe_found : Option Delivery → String → Limits → ℕ → Verdict
  observe_found none continuation_status l now =
      if ltb l.acceptance_stall_timeout_ms (now - l.watch_started_at_ms)
      then violated "continuation_delivery_materialization_stalled"
      else pending
  observe_found (some d) continuation_status l now = observe_delivery d continuation_status l now

  -- `evaluateContinuationObservation`
  unfoldable pub evaluate_observation : Observed → Limits → ℕ → Verdict
  unfolding observe_delivery
  evaluate_observation o l now = observe_found o.delivery o.continuation_status l now

  abbrev pub is_deferred : Option Inbox → String → Bool
  is_deferred none error = false
  is_deferred (some i) error =
      texts.lower i.status =ₛ "deferred" && trim i.last_error =ₛ error && leb 1 i.delivery_count

  abbrev pub deferred_by : Delivery → Option Outbox → Option Inbox → String → Verdict
  deferred_by d outbox inbox error =
      if not (is_truthy error)
      then pending
      else if not (elem error predispatch_outage_errors)
      then classed "RUNTIME" "r10_continuation_outage_unexpected_error"
      else if not (is_published outbox) || not (is_deferred inbox error)
      then pending
      else ended d

  abbrev pub outage_of : Delivery → Option ℕ → Option Outbox → Option Inbox → Verdict
  outage_of d none outbox inbox =
      classed "QUALIFICATION PROCEDURE" "r10_continuation_outage_observation_shape_invalid"
  outage_of d (some attempts) outbox inbox =
      let status = normal d.status in
      if is_blank d.delivery_id || is_blank status
      then classed "QUALIFICATION PROCEDURE" "r10_continuation_outage_observation_shape_invalid"
      else if is_truthy d.accepted_at
          || is_truthy d.observed_at
          || status =ₛ "accepted"
          || status =ₛ "observed"
      then classed "QUALIFICATION PROCEDURE" "opencode_outage_fault_missed_delivery_window"
      else if status =ₛ "dead" || status =ₛ "ambiguous"
      then classed "RUNTIME" "r10_continuation_outage_terminal_failure"
      else if ltb 0 attempts || is_truthy d.dispatch_started_at
      then classed "QUALIFICATION PROCEDURE" "opencode_outage_fault_missed_predispatch_window"
      else deferred_by d outbox inbox (trim d.last_error)

  abbrev pub outage_found : Option Delivery → Option Outbox → Option Inbox → Verdict
  outage_found none outbox inbox = pending
  outage_found (some d) outbox inbox = outage_of d d.attempts outbox inbox

  -- `evaluateContinuationOutageDeferral`
  unfoldable pub evaluate_outage_deferral : Observed → Verdict
  evaluate_outage_deferral o = outage_found o.delivery o.outbox o.inbox
