-- ===== src/Examples/Executions.antt =====
-- Executions under a fence, completions, and observations.
use agentic_harness.Base.{
  keep, not, unique, String, ◌≡◌, ◌≢◌, ◌↔◌, refl, true, false, none, some, [], ◌∷◌, arith, is_space,
  trim, trim_start, trim_end, is_blank, is_truthy, ◌=ₛ◌, if◌then◌else◌,
}
use agentic_harness.Completion.{Prefixes, TaskBrief, Handoff, evaluate_completion, is_accepted}
use agentic_harness.Completion.Acceptance.{IsComplete, evaluate_completion_iff}
use agentic_harness.Fence.{
  Dates, Fence, Identity, LeaseRow, Later, Execution, Behaviour, gives, throws, identity_digest,
  observe_fence, observe_lease, execute_under_fence, run_under, validate_active_fence,
  validate_fence, iso, is_text, is_positive, has_control,
}
use agentic_harness.Fence.Exclusion.{
  RoundTrips, Holds, execute_under_fence-exclusive, IsInert, execute_under_fence_unleased,
}
use agentic_harness.Gateway.{
  Crypto, RequestFence, Request, AuthorityRow, QueryResult, found, verified, verify_capability,
  capability_proof,
}
use agentic_harness.Gateway.Capability.{Authorizes, verify_capability_iff}
use agentic_harness.Watchdog.{
  Texts, Delivery, Observed, Limits, pending, epoch, evaluate_observation, evaluate_outage_deferral,
}
use agentic_harness.Watchdog.Verdicts.{
  IsSettled, IsDeferred, evaluate_observation_iff, evaluate_observation_decides,
  evaluate_outage_deferral_sound,
}
use agentic_harness.Evidence.{RunResult, missing_commands, synthesize}
use agentic_harness.Evidence.Receipts.{IsReceipted, is_proven, synthesize-IsReceipted}
use agentic_harness.Examples.Data.{host}

-- A clock with one date.
abbrev dates : Dates
dates = record {
  is_timestamp = λ s. s =ₛ "later";
  parse = λ s. if s =ₛ "later" then some 9 else none;
  to_iso = λ t. "later";
}

dates_round_trip : RoundTrips dates
dates_round_trip s t h = ground arith

abbrev identity : Identity
identity = record {
  run_id = "run";
  task_id = "task";
  attempt = 1;
  dispatch_generation = 2;
  fencing_token = 3;
  lease_owner = "";
}

abbrev leased : LeaseRow
leased = record {
  run_id = "run";
  status = "running";
  attempt = 1;
  dispatch_generation = 2;
  fencing_token = 3;
  lease_owner = "worker";
  lease_expires_at = "later";
}

abbrev fence : Fence
fence = record {
  schema_version = "task-execution-fence/v1";
  run_id = "run";
  task_id = "task";
  attempt = 1;
  dispatch_generation = 2;
  fencing_token = 3;
  lease_owner = "worker";
  lease_expires_at = "later";
  observed_at = "later";
}

abbrev now_held : Later
now_held = record { row = some leased; now = 5 }

abbrev done : Fence → Behaviour
done f = gives (record { status = some "PASS"; code = some "done"; executed = true })

abbrev passed : Execution
passed = record { status = "PASS"; code = "done"; executed = true; fence_verified = true }

execute_under_fence-exclusive_example :
    (owner : String) × Holds dates identity (some leased) 5 owner
    × Holds dates identity (some leased) 5 owner
unfolding execute_under_fence run_under observe_fence observe_lease validate_active_fence
    validate_fence iso is_text is_positive has_control identity_digest
execute_under_fence-exclusive_example =
    execute_under_fence-exclusive host dates dates_round_trip identity (some done) now_held now_held
      passed refl refl

-- The lease is over at 9.
abbrev expired : Later
expired = record { row = some leased; now = 20 }

execute_under_fence_unleased_example :
    IsInert host dates dates_round_trip identity done (λ f. throws none) expired now_held expired
execute_under_fence_unleased_example =
    execute_under_fence_unleased host dates dates_round_trip identity done (λ f. throws none)
      expired now_held expired
      (λ owner holds wanted.
        let (_, t, _, _, _, _, _, parsed, late) = holds in absurd (ground (arith, parsed, late)))

abbrev crypto : Crypto
crypto = record { hmac = λ secret text. secret; nul = "0"; show = λ n. "n"; parse = λ s. some 9 }

abbrev request_fence : RequestFence
request_fence = record {
  run_id = "run";
  task_id = "task";
  attempt = 1;
  dispatch_generation = 2;
  fencing_token = 3;
  lease_owner = "worker";
}

abbrev request : Request
request = record { execution_fence = some request_fence; capability = "build" }

abbrev authority : RequestFence → QueryResult
authority f = found (record {
  run_status = "running";
  status = "running";
  attempt = 1;
  dispatch_generation = 2;
  fencing_token = 3;
  lease_owner = "worker";
  lease_expires_at = "later";
  fingerprint = some (capability_proof crypto "secret" "build" f);
})

verify_capability_iff_example :
    (verify_capability crypto "secret" request 5 authority ≡ verified) ↔ (
      (f : RequestFence) × (row : AuthorityRow) × (some request_fence ≡ some f)
      × (is_truthy "build" ≡ true)
      × (authority f ≡ found row)
      × Authorizes crypto "secret" row "build" f 5)
verify_capability_iff_example = verify_capability_iff crypto "secret" request 5 authority

abbrev prefixes : Prefixes
prefixes = record { is_blocking_risk = λ s. false; is_required_follow_up = λ s. false }

abbrev brief : TaskBrief
brief = record {
  acceptance_criteria = record { id = "works"; blocking = true } ∷ [];
  validation = "npm test" ∷ [];
}

abbrev handoff : Handoff
handoff = record {
  status = "complete";
  criterion_results = record { criterion_id = "works"; result = "passed"; evidence = "log" } ∷ [];
  validation =
      record {
        command = "npm test";
        phase = "final";
        blocking = true;
        authority = "runtime";
        result = "passed";
        evidence = "receipt";
      }
      ∷ [];
  sdd_review = none;
  residual_risks = [];
  follow_ups = [];
}

evaluate_completion_iff_example :
    (is_accepted (evaluate_completion prefixes brief handoff) ≡ true)
    ↔ IsComplete prefixes brief handoff
evaluate_completion_iff_example = evaluate_completion_iff prefixes brief handoff

abbrev texts : Texts
texts = record { parse = λ s. some 10; lower = λ s. s }

abbrev limits : Limits
limits = record {
  completion_timeout_ms = 900;
  acceptance_stall_timeout_ms = 900;
  settle_grace_ms = 30;
  watch_started_at_ms = 0;
}

abbrev created : Delivery
created = record {
  delivery_id = "d";
  effect_key = "e";
  message_id = "m";
  has_prompt_text = true;
  status = "pending";
  created_at = "2026";
  generation = some 1;
  attempts = some 0;
  dispatch_started_at = "";
  accepted_at = "";
  observed_at = "";
  last_error = "agent_continuation_session_status_failed";
}

abbrev observed : Observed
observed = record {
  delivery = some created;
  continuation_status = "waiting";
  outbox = some (record { message_id = "m"; published_at = "2026"; publish_count = 1 });
  inbox = some (record {
    status = "deferred";
    last_error = "agent_continuation_session_status_failed";
    delivery_count = 1;
  });
}

evaluate_observation_iff_example :
    ((evaluate_observation texts observed limits 20).terminal ≡ some created)
    ↔ IsSettled texts observed created
evaluate_observation_iff_example = evaluate_observation_iff texts observed limits 20 created

stalled : evaluate_observation texts observed limits 2000 ≢ pending
unfolding epoch
stalled =
    evaluate_observation_decides texts observed limits 2000 created 10 refl refl (omega arith)
      (λ accepted h. absurd (cc h))

evaluate_observation_decides_example : evaluate_observation texts observed limits 2000 ≢ pending
unfolding epoch
evaluate_observation_decides_example =
    evaluate_observation_decides texts observed limits 2000 created 10 refl refl (omega arith)
      (λ accepted h. absurd (cc h))

evaluate_outage_deferral_sound_example : IsDeferred texts observed.outbox observed.inbox created
unfolding evaluate_outage_deferral trim trim_start trim_end is_space is_blank
evaluate_outage_deferral_sound_example = evaluate_outage_deferral_sound texts observed created refl

abbrev failing : String → RunResult
failing c = record { exit_code = some 1; timed_out = false; evidence = "log" }

synthesize-IsReceipted_example :
    IsReceipted failing
      (unique ("npm test" ∷ []))
      handoff.validation
      (synthesize failing brief handoff)
    × (missing_commands brief (record handoff { validation = synthesize failing brief handoff })
        ≡ keep (λ c. not (is_proven failing c)) (unique ("npm test" ∷ [])))
synthesize-IsReceipted_example = synthesize-IsReceipted failing brief handoff refl
