-- ===== src/Store/History.antt =====
-- What holds of the store along every sequence of its operations, those that throw included.
use agentic_harness.Base.{
  ℕ, ◌+◌, String, ◌≡◌, true, Option, none, some, List, [], ◌++◌, arith, Json, length, lookup,
}
use agentic_harness.Host.{Host}
use agentic_harness.Rows.{Plan, PlannedTask, Run, RunPatch, TaskPatch, Event}
use agentic_harness.RunInvariants.{is_terminal_run_status}
use agentic_harness.Store.Monad.{Store}
use agentic_harness.Store.Events.{ReceiptMetadata, event, event_once, record_receipt}
use agentic_harness.Store.Runs.{
  Options, add_tasks, replace_plan, update_run, update_task, touch_task,
}
use agentic_harness.Store.Refinement.{Refinement, apply_refinement}
use agentic_harness.Store.Wakes.{materialize_wake, repair_wakes, cancel_continuation}
use agentic_harness.Store.Registration.{
  Registration, CreateOptions, register_continuation, create_run,
}
use agentic_harness.Store.Extends.{Extends, Extends-refl, Extends-trans, Numbered, StillEnded}
use agentic_harness.Store.Operations.{
  event-Extends, event_once-Extends, record_receipt-Extends, add_tasks-Extends,
  replace_plan-Extends, update_run-Extends, update_task-Extends, touch_task-Extends,
}
use agentic_harness.Store.Changes.{
  apply_refinement-Extends, materialize_wake-Extends, repair_wakes-Extends,
  cancel_continuation-Extends, register_continuation-Extends, create_run-Extends,
}

-- A call of a method that may write.
pub data Call : Type 0 where
  create : Plan → CreateOptions → String → Call
  add : String → List PlannedTask → Options → Call
  replace : String → Plan → Options → Call
  refine : String → Plan → Refinement → Call
  set_run : String → RunPatch → Options → Call
  set_task : String → TaskPatch → Options → Call
  touch : String → Call
  append : String → Option String → String → Json → Call
  append_once : String → Option String → String → Json → Option String → Call
  receipt : Event → ReceiptMetadata → Call
  register : String → Registration → String → Call
  cancel : String → String → String → Call
  wake : String → Option String → String → Call
  repair : ℕ → (ℕ → String) → Call

module _ (host : Host) where
  -- The store after the call, whether it returns or throws.
  abbrev pub after : Call → Store → Store
  after (create plan o at) s = (create_run host plan o at s).1
  after (add run_id ts o) s = (add_tasks host run_id ts o s).1
  after (replace run_id plan o) s = (replace_plan host run_id plan o s).1
  after (refine run_id plan r) s = (apply_refinement host run_id plan r s).1
  after (set_run run_id patch o) s = (update_run run_id patch o s).1
  after (set_task task_id patch o) s = (update_task task_id patch o s).1
  after (touch task_id) s = (touch_task task_id s).1
  after (append run_id task_id kind payload) s = event host run_id task_id kind payload s
  after (append_once run_id task_id kind payload key) s =
      (event_once host run_id task_id kind payload key s).1
  after (receipt source m) s = (record_receipt host source m s).1
  after (register run_id r at) s = (register_continuation host run_id r at s).1
  after (cancel run_id reason at) s = (cancel_continuation host run_id reason at s).1
  after (wake run_id status at) s = (materialize_wake host run_id status at s).1
  after (repair limit clock) s = (repair_wakes host limit clock s).1

  -- A run is created under an identifier that no run has: `createRun` would overwrite the row.
  abbrev pub Fresh : Call → Store → Type 0
  Fresh (create plan o at) s = lookup plan.run_id s.runs ≡ none
  Fresh _ s = Unit

  pub data Reach (s : Store) : Store → Type 0 where
    here : Reach s s
    step : {t u : Store} → Reach s t → (c : Call) → Fresh c t → u ≡ after c t → Reach s u

  call-Extends : (c : Call) (s : Store) → Fresh c s → Extends s (after c s)
  call-Extends (create plan o at) s fresh = create_run-Extends host plan o at s fresh
  call-Extends (add run_id ts o) s fresh = add_tasks-Extends host run_id ts o s
  call-Extends (replace run_id plan o) s fresh = replace_plan-Extends host run_id plan o s
  call-Extends (refine run_id plan r) s fresh = apply_refinement-Extends host run_id plan r s
  call-Extends (set_run run_id patch o) s fresh = update_run-Extends run_id patch o s
  call-Extends (set_task task_id patch o) s fresh = update_task-Extends task_id patch o s
  call-Extends (touch task_id) s fresh = touch_task-Extends task_id s
  call-Extends (append run_id task_id kind payload) s fresh =
      event-Extends host run_id task_id kind payload s
  call-Extends (append_once run_id task_id kind payload key) s fresh =
      event_once-Extends host run_id task_id kind payload key s
  call-Extends (receipt source m) s fresh = record_receipt-Extends host source m s
  call-Extends (register run_id r at) s fresh = register_continuation-Extends host run_id r at s
  call-Extends (cancel run_id reason at) s fresh =
      cancel_continuation-Extends host run_id reason at s
  call-Extends (wake run_id status at) s fresh = materialize_wake-Extends host run_id status at s
  call-Extends (repair limit clock) s fresh = repair_wakes-Extends host limit clock s

  pub Reach-Extends : {s t : Store} → Reach s t → Extends s t
  Reach-Extends {s} here = Extends-refl s
  Reach-Extends (step {t} r c fresh e) =
      Extends-trans (Reach-Extends r) (rw e (call-Extends c t fresh))

abbrev pub empty : Store
empty = record {
  runs = [];
  tasks = [];
  events = [];
  event_sequence = 0;
  continuations = [];
  deliveries = [];
}

-- Whatever calls follow, a run that has ended (closed, failed, blocked or cancelled) is still there,
-- with the same status and the same time of its end. Calls that throw are included; runs are
-- created under identifiers that no run has.
pub ended_run_is_final :
    (host : Host) (s t : Store) (run_id : String) (run : Run)
    → Reach host s t
    → lookup run_id s.runs ≡ some run
    → is_terminal_run_status run.status ≡ true
    → StillEnded run t.runs run_id
ended_run_is_final host s t run_id run r there ended =
    (Reach-Extends host r).frozen run_id run there ended

-- The log of a store that was reached from the empty one has the events 1, 2, 3 and so on in order,
-- and the counter is the number of events.
pub Reach-Numbered :
    (host : Host) (t : Store)
    → Reach host empty t
    → Numbered 0 t.events × (t.event_sequence ≡ length t.events)
Reach-Numbered host t r =
    let x = Reach-Extends host r in (rw x.log x.numbered, rw x.log (omega (arith, x.counted)))

-- Along every sequence of calls, those that throw included, no event is removed or changed: the log
-- before is a first part of the log after, and the events that were added have the next numbers.
-- Runs are created under identifiers that no run has.
pub log_only_grows :
    (host : Host) (s t : Store)
    → Reach host s t
    → (added : List Event) × (t.events ≡ s.events ++ added)
      × Numbered s.event_sequence added
      × (t.event_sequence ≡ s.event_sequence + length added)
log_only_grows host s t r = let x = Reach-Extends host r in (x.added, x.log, x.numbered, x.counted)
