-- ===== src/Parking/Denial.antt =====
-- .agents/runtime/parked-orchestrator-guard.mjs: when an observation is denied.
use agentic_harness.Base.{
  String, ◌≡◌, ◌↔◌, Bool, true, false, not, ◌&&◌, ◌||◌, Option, arith, if◌then◌else◌, elem, trim,
  is_truthy, ◌=ₛ◌,
}
use agentic_harness.Parking.{
  ParkStatus, requires_park, observation_violation, observation_disposition, Disposition, deny,
  origin_of, live_wake_statuses, terminal_run_statuses,
}

module _ (lower : String → String) where
  abbrev pub is_denied : Disposition lower → Bool
  is_denied (deny v) = true
  is_denied _ = false

  -- A wake of the run is still to come: before the run has ended the continuation waits for the end,
  -- after it the wake is to be materialized or to be delivered.
  abbrev pub is_waiting : ParkStatus → Bool
  is_waiting s =
      if elem (lower (trim s.run_status)) terminal_run_statuses
      then trim s.phase =ₛ "wake-materialization-pending"
        || (trim s.phase =ₛ "wake-delivery-active"
            && not (elem (lower (trim s.current_delivery_status)) live_wake_statuses))
      else trim s.phase =ₛ "waiting-for-run-terminal"

  requires_iff :
      (s : ParkStatus)
      → (requires_park lower s && is_truthy (trim s.run_id) ≡ true)
        ↔ (is_truthy (trim s.run_id) ≡ true) × (s.has_continuation ≡ true) × (is_waiting s ≡ true)
  unfolding requires_park
  requires_iff s = (λ h. ground arith, λ h. ground arith)

  denied_iff :
      (tool_name : Option String) (s : ParkStatus) (invocation_origin : String)
      → (is_denied (observation_disposition lower tool_name s invocation_origin) ≡ true)
        ↔ (requires_park lower s && is_truthy (trim s.run_id) ≡ true)
          × ((origin_of lower invocation_origin =ₛ "explicit-human-turn") ≡ false)
  unfolding observation_disposition observation_violation
  denied_iff tool_name s invocation_origin = (λ h. ground arith, λ h. ground arith)

  -- An observation is denied exactly when the status names a run with a continuation, a wake of that
  -- run is still to come, and no human asks in this turn.
  pub observation_disposition_iff :
      (tool_name : Option String) (s : ParkStatus) (invocation_origin : String)
      → (is_denied (observation_disposition lower tool_name s invocation_origin) ≡ true)
        ↔ (is_truthy (trim s.run_id) ≡ true)
          × (s.has_continuation ≡ true)
          × (is_waiting s ≡ true)
          × ((origin_of lower invocation_origin =ₛ "explicit-human-turn") ≡ false)
  observation_disposition_iff tool_name s invocation_origin =
      let denied = denied_iff tool_name s invocation_origin in
      let park = requires_iff s in
      (
        λ h. let (p, o) = denied.0 h in let (r, c, w) = park.0 p in (r, c, w, o),
        λ (r, c, w, o). denied.1 (park.1 (r, c, w), o),
      )
