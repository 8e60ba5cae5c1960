-- ===== src/Store/Operations.antt =====
-- Each operation of the store grows the log and keeps the runs that have ended.
use agentic_harness.Base.{
  String, ◌≡◌, refl, ◌∙◌, Option, none, some, List, [], ◌∷◌, arith, Json, lookup, put, find,
  is_truthy, ◌=ₛ◌, Bool-cases, Option-cases, inl, inr,
}
use agentic_harness.Host.{Host}
use agentic_harness.Rows.{Plan, PlannedTask, Run, Task, RunPatch, TaskPatch, Event}
use agentic_harness.RunInvariants.{assert_terminal_run_patch}
use agentic_harness.RunInvariants.Guard.{assign_run_keeps_end}
use agentic_harness.Continuation.{effect_event_id}
use agentic_harness.Store.Monad.{Store}
use agentic_harness.Store.Events.{
  ReceiptMetadata, has_receipt, receipt_row, record_receipt, event, keyed_event, event_once,
}
use agentic_harness.Store.Runs.{
  Options, version_conflict, insert_task, insert_tasks, announce, add_tasks, replace_plan,
  update_run, update_task, touch_task,
}
use agentic_harness.Store.Extends.{
  Extends, Extends-refl, Extends-trans, Extends-of_same, Frozen-refl, Frozen-put,
}

module _ (host : Host) where
  pub event-Extends :
      (run_id : String) (task_id : Option String) (kind : String) (payload : Json) (s : Store)
      → Extends s (event host run_id task_id kind payload s)
  unfolding event
  event-Extends run_id task_id kind payload s = record {
    added = _;
    log = refl;
    numbered = (refl, tt);
    counted = omega arith;
    frozen = Frozen-refl s.runs;
  }

  keyed_event-Extends :
      (run_id : String) (task_id : Option String) (kind : String) (payload : Json) (key : String)
      (s : Store)
      → Extends s (keyed_event host run_id task_id kind payload key s).1
  unfolding keyed_event
  keyed_event-Extends run_id task_id kind payload key s =
      elim (Option-cases (find (λ e. e.event_id =ₛ effect_event_id host key) s.events)) [
        | inl absent ↦
            rw (absent, keyed_event)
              (record {
                added = _;
                log = refl;
                numbered = (refl, tt);
                counted = omega arith;
                frozen = Frozen-refl s.runs;
              })
        | inr (_, there) ↦ rw (there, keyed_event) (Extends-refl s)
      ]

  pub record_receipt-Extends :
      (source : Event) (m : ReceiptMetadata) (s : Store)
      → Extends s (record_receipt host source m s).1
  unfolding record_receipt receipt_row
  record_receipt-Extends source m s = elim (Bool-cases (has_receipt host source.event_id s)) [
    | inl before ↦ rw (before, record_receipt) (Extends-refl s)
    | inr fresh ↦
        rw (fresh, record_receipt)
          (record {
            added = _;
            log = refl;
            numbered = (refl, tt);
            counted = omega arith;
            frozen = Frozen-refl s.runs;
          })
  ]

  pub event_once-Extends :
      (run_id : String) (task_id : Option String) (kind : String) (payload : Json)
      (key : Option String) (s : Store)
      → Extends s (event_once host run_id task_id kind payload key s).1
  unfolding event_once
  event_once-Extends run_id task_id kind payload none s =
      event-Extends run_id task_id kind payload s
  event_once-Extends run_id task_id kind payload (some key) s = elim (Bool-cases (is_truthy key)) [
    | inl set ↦ rw set (keyed_event-Extends run_id task_id kind payload key s)
    | inr empty ↦ rw empty (event-Extends run_id task_id kind payload s)
  ]

insert_task-Extends :
    (run_id : String) (t : PlannedTask) (o : Options) (s : Store)
    → Extends s (insert_task run_id t o s).1
unfolding insert_task
insert_task-Extends run_id t o s = elim (Option-cases (lookup t.task_id s.tasks)) [
  | inl absent ↦ rw (absent, insert_task) (Extends-of_same refl refl (Frozen-refl s.runs))
  | inr (_, there) ↦ rw (there, insert_task) (Extends-refl s)
]

pub insert_tasks-Extends :
    (run_id : String) (ts : List PlannedTask) (o : Options) (s : Store)
    → Extends s (insert_tasks run_id ts o s).1
unfolding insert_tasks
insert_tasks-Extends run_id [] o s = Extends-refl s
insert_tasks-Extends run_id (t ∷ ts) o s =
    Extends-trans (insert_task-Extends run_id t o s) (insert_tasks-Extends run_id ts o _)

module _ (host : Host) where
  announce-Extends :
      (run_id : String) (rows : List Task) (s : Store) → Extends s (announce host run_id rows s)
  unfolding announce
  announce-Extends run_id [] s = Extends-refl s
  announce-Extends run_id (row ∷ rows) s = event-Extends host run_id none _ _ s

  pub add_tasks-Extends :
      (run_id : String) (ts : List PlannedTask) (o : Options) (s : Store)
      → Extends s (add_tasks host run_id ts o s).1
  unfolding add_tasks
  add_tasks-Extends run_id ts o s =
      Extends-trans (insert_tasks-Extends run_id ts o s) (announce-Extends run_id _ _)

  -- A write of a run's row with another plan and version, and an event.
  pub plan_write-Extends :
      (run_id : String) (current next : Run) (kind : String) (payload : Json) (s t : Store)
      → lookup run_id s.runs ≡ some current
      → next.status ≡ current.status
      → next.completed_at ≡ current.completed_at
      → Extends s t
      → lookup run_id t.runs ≡ some current
      → Extends s (event host run_id none kind payload (record t { runs = put run_id next t.runs }))
  plan_write-Extends run_id current next kind payload s t there st at grown there' =
      Extends-trans grown (
        Extends-trans
          (Extends-of_same refl refl (Frozen-put run_id current next t.runs there' (λ _. (st, at))))
          (event-Extends host run_id none kind payload _))

  pub replace_plan-Extends :
      (run_id : String) (plan : Plan) (o : Options) (s : Store)
      → Extends s (replace_plan host run_id plan o s).1
  unfolding replace_plan
  replace_plan-Extends run_id plan o s = elim (Option-cases (lookup run_id s.runs)) [
    | inl absent ↦ rw (absent, replace_plan) (Extends-refl s)
    | inr (current, there) ↦
        elim (Bool-cases (version_conflict o.expected_version current.state_version)) [
          | inl stale ↦ rw (there, stale, replace_plan) (Extends-refl s)
          | inr fresh ↦
              rw (there, fresh, replace_plan)
                (plan_write-Extends run_id current _ _ _ s s there refl refl (Extends-refl s) there)
        ]
  ]

pub update_run-Extends :
    (run_id : String) (patch : RunPatch) (o : Options) (s : Store)
    → Extends s (update_run run_id patch o s).1
unfolding update_run
update_run-Extends run_id patch o s = elim (Option-cases (lookup run_id s.runs)) [
  | inl absent ↦ rw (absent, update_run) (Extends-refl s)
  | inr (current, there) ↦
      elim (Bool-cases (version_conflict o.expected_version current.state_version)) [
        | inl stale ↦ rw (there, stale, update_run) (Extends-refl s)
        | inr fresh ↦ elim (Option-cases (assert_terminal_run_patch current patch)) [
          | inr (e, refused) ↦ rw (there, fresh, refused, update_run) (Extends-refl s)
          | inl passed ↦
              rw (there, fresh, passed, update_run)
                (Extends-of_same refl refl (
                  Frozen-put run_id current _ s.runs there
                    (assign_run_keeps_end current patch passed)))
        ]
      ]
]

pub update_task-Extends :
    (task_id : String) (patch : TaskPatch) (o : Options) (s : Store)
    → Extends s (update_task task_id patch o s).1
unfolding update_task
update_task-Extends task_id patch o s = elim (Option-cases (lookup task_id s.tasks)) [
  | inl absent ↦ rw (absent, update_task) (Extends-refl s)
  | inr (current, there) ↦
      elim (Bool-cases (version_conflict o.expected_version current.state_version)) [
        | inl stale ↦ rw (there, stale, update_task) (Extends-refl s)
        | inr fresh ↦
            rw (there, fresh, update_task) (Extends-of_same refl refl (Frozen-refl s.runs))
      ]
]

pub touch_task-Extends : (task_id : String) (s : Store) → Extends s (touch_task task_id s).1
unfolding touch_task
touch_task-Extends task_id s = elim (Option-cases (lookup task_id s.tasks)) [
  | inl absent ↦ rw (absent, touch_task) (Extends-refl s)
  | inr (current, there) ↦ rw (there, touch_task) (Extends-of_same refl refl (Frozen-refl s.runs))
]

runs-insert_task :
    (run_id : String) (t : PlannedTask) (o : Options) (s : Store)
    → (insert_task run_id t o s).1.runs ≡ s.runs
unfolding insert_task
runs-insert_task run_id t o s = ground arith

pub runs-insert_tasks :
    (run_id : String) (ts : List PlannedTask) (o : Options) (s : Store)
    → (insert_tasks run_id ts o s).1.runs ≡ s.runs
unfolding insert_tasks
runs-insert_tasks run_id [] o s = refl
runs-insert_tasks run_id (t ∷ ts) o s =
    runs-insert_tasks run_id ts o (insert_task run_id t o s).1 ∙ runs-insert_task run_id t o s
