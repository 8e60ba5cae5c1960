-- ===== src/Examples/StoreRuns.antt =====
-- Runs of the store.
use agentic_harness.Base.{
  ◌+◌, String, ◌≡◌, refl, true, false, Option, none, some, List, [], ◌∷◌, ◌++◌, arith, null, length,
  lookup, put, values, keep, find, without, put, trim, trim_start, trim_end, is_space,
}
use agentic_harness.Rows.{Delivery, Event, assign_run}
use agentic_harness.RunInvariants.{
  is_terminal_run_status, assert_terminal_run_patch, check_occurrence,
}
use agentic_harness.Continuation.{effect_event_id, run_status_to_event}
use agentic_harness.Store.Monad.{
  Store, StoreError, ok, threw, run_version_conflict, refinement_task_missing,
}
use agentic_harness.Store.Events.{event_once, keyed}
use agentic_harness.Store.Runs.{update_run}
use agentic_harness.Store.Refinement.{
  apply_refinement, try_refinement, try_from, remove_tasks, remove_task, removal_unsafe,
}
use agentic_harness.Store.Wakes.{
  materialize_wake, dispatch_wake, wake_of, wake_at, due_event, wake_key, new_delivery, record_wake,
  cancel_continuation, is_cancellable, cancelled,
}
use agentic_harness.Store.Registration.{register_continuation}
use agentic_harness.Store.Extends.{Numbered, StillEnded}
use agentic_harness.Store.History.{
  set_run, append, Reach, here, step, ended_run_is_final, log_only_grows, after,
}
use agentic_harness.Store.Atomicity.{apply_refinement_atomic}
use agentic_harness.Store.Idempotence.{event_once_again, materialize_wake_again}
use agentic_harness.Store.Versions.{update_run_stale}
use agentic_harness.Store.Cancelling.{
  IsClosedIn, cancel_continuation_ends, register_continuation_refused,
}
use agentic_harness.Examples.Data.{
  host, plan, open_run, closed_run, bound, open_store, closed_store, options, at_version_0,
  run_patch, reopening, half_refinement, registration,
}

-- A patch that would reopen the closed run, and an event.
abbrev after_closing : Reach host closed_store (
    after host
      (append "run" none "note" null)
      (after host (set_run "run" reopening options) closed_store))
after_closing =
    step (step here (set_run "run" reopening options) tt refl) (append "run" none "note" null) tt
      refl

ended_run_is_final_example :
    StillEnded closed_run
      (after host
        (append "run" none "note" null)
        (after host (set_run "run" reopening options) closed_store)).runs
      "run"
unfolding lookup is_terminal_run_status
ended_run_is_final_example =
    ended_run_is_final host closed_store _ "run" closed_run after_closing refl refl

log_only_grows_example :
    (added : List Event) × ((after host
        (append "run" none "note" null)
        (after host (set_run "run" reopening options) closed_store)).events
      ≡ closed_store.events ++ added)
    × Numbered closed_store.event_sequence added
    × ((after host
          (append "run" none "note" null)
          (after host (set_run "run" reopening options) closed_store)).event_sequence
        ≡ closed_store.event_sequence + length added)
log_only_grows_example = log_only_grows host closed_store _ after_closing

apply_refinement_atomic_example :
    (apply_refinement host "run" plan half_refinement open_store).1 ≡ open_store
unfolding apply_refinement try_refinement try_from remove_tasks remove_task removal_unsafe lookup
    without put
apply_refinement_atomic_example =
    apply_refinement_atomic host "run" plan half_refinement open_store
      (refinement_task_missing "unknown") refl

event_once_again_example :
    event_once host "other" none "again" null
      (some "key")
      (event_once host "run" none "note" null (some "key") open_store).1
    ≡ (
      keyed false (effect_event_id host "key"),
      (event_once host "run" none "note" null (some "key") open_store).1,
    )
event_once_again_example =
    event_once_again host "run" "other" none none "note" "again" null null "key" open_store refl

update_run_stale_example :
    ((record (assign_run open_run run_patch) { state_version = 1 }).state_version ≡ 0 + 1)
    × (update_run "run" reopening at_version_0
          (update_run "run" run_patch at_version_0 open_store).1
        ≡ (
          threw (run_version_conflict "run" 0 (0 + 1)),
          (update_run "run" run_patch at_version_0 open_store).1,
        ))
unfolding update_run assign_run assert_terminal_run_patch check_occurrence lookup put
    is_terminal_run_status
update_run_stale_example =
    update_run_stale "run" run_patch reopening at_version_0 at_version_0 0 open_store _ _ refl refl
      refl

abbrev open_delivery : Delivery
open_delivery =
    new_delivery host bound "run" "2026-01-02" "run.completed" "key" "message" "2026-01-02"

-- A delivery that is open, and one that the session has accepted.
abbrev waking_store : Store
waking_store = record closed_store {
  deliveries =
      ("d1", open_delivery) ∷ ("d2", record open_delivery { accepted_at = some "2026-01-02" }) ∷ [];
}

abbrev stopped_store : Store
stopped_store = (cancel_continuation host "run" "stop" "2026-01-03" waking_store).1

cancel_continuation_ends_example :
    ((cancel_continuation host "run" "stop" "2026-01-03" waking_store).0
      ≡ cancelled "c" (length (keep (is_cancellable "c") (values waking_store.deliveries))))
    × (keep (is_cancellable "c") (values stopped_store.deliveries) ≡ [])
    × ((key : String) (d : Delivery)
        → lookup key waking_store.deliveries ≡ some d
        → IsClosedIn "c" stopped_store.deliveries key d)
    × ((key : String)
        → lookup key waking_store.deliveries ≡ none
        → lookup key stopped_store.deliveries ≡ none)
    × ((status : Option String) (at' : String)
        → materialize_wake host "run" status at' stopped_store ≡ (ok none, stopped_store))
unfolding lookup
cancel_continuation_ends_example =
    cancel_continuation_ends host "run" "stop" "2026-01-03" waking_store bound refl refl

register_continuation_refused_example :
    (e : StoreError) × (register_continuation host "run" registration "2026-01-03"
        (record closed_store { continuations = ("run", record bound { generation = 1 }) ∷ [] })
      ≡ (
        threw e,
        record closed_store { continuations = ("run", record bound { generation = 1 }) ∷ [] },
      ))
unfolding lookup
register_continuation_refused_example =
    register_continuation_refused host "run" registration "2026-01-03"
      (record closed_store { continuations = ("run", record bound { generation = 1 }) ∷ [] })
      (record bound { generation = 1 }) refl (omega arith)

abbrev key : String
key = wake_key host bound "run" "2026-01-02" "run.completed"

materialize_wake_again_example :
    materialize_wake host "run" none "2026-01-04" (
      record_wake host bound "run"
        (new_delivery host bound "run" "2026-01-02" "run.completed" key key "2026-01-03")
        "2026-01-03"
        closed_store)
    ≡ (
      ok (
          some (record {
            delivery =
                new_delivery host bound "run" "2026-01-02" "run.completed" key key "2026-01-03";
            created = false;
          })),
      record_wake host bound "run"
          (new_delivery host bound "run" "2026-01-02" "run.completed" key key "2026-01-03")
          "2026-01-03"
          closed_store,
    )
unfolding materialize_wake dispatch_wake wake_of wake_at due_event lookup find values
    run_status_to_event trim trim_start trim_end is_space
materialize_wake_again_example =
    materialize_wake_again host "run" none "2026-01-03" "2026-01-04" closed_store _
      (record {
        delivery = new_delivery host bound "run" "2026-01-02" "run.completed" key key "2026-01-03";
        created = true;
      })
      refl
