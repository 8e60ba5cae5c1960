-- ===== src/Parking.antt =====
-- .agents/runtime/parked-orchestrator-guard.mjs and execution-plane-readiness.mjs: when the parked
-- orchestrator may not observe its run, and when a worker is ready. Missing texts are empty.
pub mod Denial
use Prim.Native.String.{◌++◌}
use agentic_harness.Base.{
  ℕ, String, Bool, true, false, not, ◌||◌, Option, none, some, elem, trim, is_truthy, or_else, ◌=ₛ◌,
  if◌then◌else◌,
}
use mathlib.Core.List.{List, [], ◌∷◌}

abbrev pub terminal_run_statuses : List String
terminal_run_statuses = "closed" ∷ "failed" ∷ "blocked" ∷ "cancelled" ∷ []

abbrev pub live_wake_statuses : List String
live_wake_statuses = "accepted" ∷ "observed" ∷ []

pub record ParkStatus : Type 0 where
  pub run_id : String
  pub run_status : String
  pub has_continuation : Bool
  pub phase : String
  pub current_delivery_status : String

module _ (lower : String → String) where
  unfoldable pub requires_park : ParkStatus → Bool
  unfolding trim
  requires_park s =
      if not (is_truthy (trim s.run_id)) || not s.has_continuation
      then false
      else if not (elem (lower (trim s.run_status)) terminal_run_statuses)
      then trim s.phase =ₛ "waiting-for-run-terminal"
      else if trim s.phase =ₛ "wake-materialization-pending"
      then true
      else if trim s.phase =ₛ "wake-delivery-active"
      then not (elem (lower (trim s.current_delivery_status)) live_wake_statuses)
      else false

  unfoldable pub observation_violation : Option String → ParkStatus → Option String
  unfolding requires_park trim
  observation_violation tool_name s =
      if not (is_truthy (trim s.run_id)) || not (requires_park s)
      then none
      else some (
          "agent_runtime_main_orchestrator_parked_observation_denied:"
          ++ (or_else tool_name "observation" ++ (":" ++ trim s.run_id)))

  pub data Disposition : Type 0 where
    allow allow_human : Disposition
    deny : String → Disposition

  abbrev pub origin_of : String → String
  origin_of invocation_origin =
      let origin = trim invocation_origin in if is_truthy origin then origin else "unknown"

  abbrev pub disposition_of : Option String → String → Disposition
  disposition_of none invocation_origin = allow
  disposition_of (some v) invocation_origin =
      if origin_of invocation_origin =ₛ "explicit-human-turn" then allow_human else deny v

  unfoldable pub observation_disposition : Option String → ParkStatus → String → Disposition
  unfolding observation_violation
  observation_disposition tool_name s invocation_origin =
      disposition_of (observation_violation tool_name s) invocation_origin

pub record Worker : Type 0 where
  pub healthy : Bool
  pub available : Option Bool
  pub reason : Option String
  pub age_ms : Option ℕ

-- Ready, with whether the check was bypassed; or refused for a reason.
pub data Readiness : Type 0 where
  ready : Bool → Readiness
  refused : String → Readiness

module _ (show : ℕ → String) where
  abbrev shown_age : Option ℕ → String
  shown_age none = "unknown"
  shown_age (some ms) = show ms

  abbrev reason_for : Option String → Option Bool → Option ℕ → String
  reason_for (some r) available age = r
  reason_for none (some false) age = "worker_not_registered"
  reason_for none _ age = "heartbeat_age_ms:" ++ shown_age age

  abbrev worker_state : Option Worker → Readiness
  worker_state none = refused (reason_for none none none)
  worker_state (some w) =
      if w.healthy then ready false else refused (reason_for w.reason w.available w.age_ms)

  unfoldable pub assert_worker_readiness : Option Worker → Bool → Readiness
  assert_worker_readiness worker required = if not required then ready true else worker_state worker
