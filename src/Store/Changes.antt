-- ===== src/Store/Changes.antt =====
-- The operations of several steps grow the log and keep the runs that have ended: the refinement of
-- a plan, the wakes of a continuation, its registration and the creation of a run.
use agentic_harness.Base.{
  ℕ, ◌+◌, String, ◌≡◌, refl, ◌∙◌, ap, Option, none, some, List, [], ◌∷◌, lookup, find, is_truthy,
  ◌=ₛ◌, values, Bool-cases, Option-cases, inl, inr,
}
use agentic_harness.Host.{Host}
use agentic_harness.Rows.{Plan, Run, Continuation, Delivery}
use agentic_harness.Store.Registration.{
  Registration, CreateOptions, identity_missing, rebind_refused, park, wake_if_ended,
  register_continuation, register_option, new_run, create_run,
}
use agentic_harness.Store.Wakes.{
  wake_key, record_wake, wake_at, wake_of, dispatch_wake, materialize_wake, repair_runs,
  repair_wakes, cancel_continuation,
}
use agentic_harness.Continuation.{run_status_to_event, normalize_wake_events}
use agentic_harness.Store.Monad.{Store, StoreError, Result, ok, threw, Action, resume}
use agentic_harness.Store.Runs.{version_conflict, insert_tasks}
use agentic_harness.Store.Refinement.{
  Refinement, remove_tasks, update_all_dependencies, commit_refinement, try_from, try_refinement,
  caught, apply_refinement,
}
use agentic_harness.Store.Atomicity.{
  SameButTasks, remove_tasks_keeps, update_all_dependencies_keeps, apply_refinement_atomic,
}
use agentic_harness.Store.Extends.{
  Extends, Extends-refl, Extends-trans, Extends-of_same, Frozen-refl, Frozen-of_eq, Frozen-put_new,
}
use agentic_harness.Store.Operations.{
  event-Extends, insert_tasks-Extends, plan_write-Extends, runs-insert_tasks,
}

Extends-of_SameButTasks : {s t : Store} → SameButTasks t s → Extends s t
Extends-of_SameButTasks h = Extends-of_same h.events h.event_sequence (Frozen-of_eq h.runs)

-- A sequence grows the log if both parts do; the second may rely on what the first keeps.
resume-Extends :
    {A B : Type 0} (r : Result A) (f : A → Action B) (s s' : Store)
    → Extends s s'
    → ((a : A) → Extends s' (f a s').1)
    → Extends s (resume r f s').1
resume-Extends (ok a) f s s' h k = Extends-trans h (k a)
resume-Extends (threw e) f s s' h k = h

module _ (host : Host) (run_id : String) (plan : Plan) (r : Refinement) where
  commit-Extends :
      (current : Run) (s : Store)
      → lookup run_id s.runs ≡ some current
      → Extends s (commit_refinement host run_id plan r current s).1
  unfolding commit_refinement
  commit-Extends current s there =
      plan_write-Extends host run_id current _ _ _ s
        (insert_tasks run_id r.added_tasks r.options s).1 there refl refl
        (insert_tasks-Extends run_id r.added_tasks r.options s)
        (rw (runs-insert_tasks run_id r.added_tasks r.options s) there)

  try_from-Extends :
      (o : Option Run) (s : Store)
      → lookup run_id s.runs ≡ o
      → Extends s (try_from host run_id plan r o s).1
  unfolding try_from
  try_from-Extends none s h = Extends-refl s
  try_from-Extends (some current) s h =
      elim (Bool-cases (version_conflict r.options.expected_version current.state_version)) [
        | inl stale ↦ rw stale (Extends-refl s)
        | inr fresh ↦
            let removed = remove_tasks_keeps run_id r.removed_task_ids s in
            let s₁ = (remove_tasks run_id r.removed_task_ids s).1 in
            let updated = update_all_dependencies_keeps run_id r.dependency_updates s₁ in
            rw fresh (
              resume-Extends (remove_tasks run_id r.removed_task_ids s).0 _ s s₁
                (Extends-of_SameButTasks removed)
                (λ _.
                  resume-Extends (update_all_dependencies run_id r.dependency_updates s₁).0 _ s₁ _
                    (Extends-of_SameButTasks updated)
                    (λ _.
                      commit-Extends current _
                        (ap (lookup run_id) (updated.runs ∙ removed.runs) ∙ h))))
      ]

  caught-Extends :
      (x : Result Run) (s t : Store)
      → Extends s t
      → ((e : StoreError)
          → (caught host run_id plan r s x t).0 ≡ threw e
          → (caught host run_id plan r s x t).1 ≡ s)
      → Extends s (caught host run_id plan r s x t).1
  caught-Extends (ok run) s t grown undone = grown
  caught-Extends (threw e) s t grown undone = rw (undone e refl) (Extends-refl s)

  pub apply_refinement-Extends : (s : Store) → Extends s (apply_refinement host run_id plan r s).1
  unfolding apply_refinement try_refinement
  apply_refinement-Extends s =
      caught-Extends (try_refinement host run_id plan r s).0 s
        (try_refinement host run_id plan r s).1 (try_from-Extends (lookup run_id s.runs) s refl)
        (apply_refinement_atomic host run_id plan r s)

module _ (host : Host) where
  record_wake-Extends :
      (c : Continuation) (run_id : String) (d : Delivery) (at : String) (s : Store)
      → Extends s (record_wake host c run_id d at s)
  unfolding record_wake
  record_wake-Extends c run_id d at s =
      Extends-trans (Extends-of_same refl refl (Frozen-refl s.runs))
        (event-Extends host run_id none _ _ _)

  wake_at-Extends :
      (c : Continuation) (run_id completed_at kind at : String) (s : Store)
      → Extends s (wake_at host c run_id completed_at kind at s).1
  unfolding wake_at
  wake_at-Extends c run_id completed_at kind at s =
      let key = wake_key host c run_id completed_at kind in
      elim (Option-cases (find (λ d. d.effect_key =ₛ key) (values s.deliveries))) [
        | inr (_, there) ↦ rw (there, wake_at) (Extends-refl s)
        | inl absent ↦ elim (Option-cases (host.message_id c.session_adapter_id key at)) [
          | inl unknown ↦ rw (absent, unknown, wake_at) (Extends-refl s)
          | inr (message_id, known) ↦
              rw (absent, known, wake_at) (record_wake-Extends c run_id _ at s)
        ]
      ]

  wake_of-Extends :
      (c : Continuation) (run_id : String) (completed_at : Option String) (kind at : String)
      (s : Store)
      → Extends s (wake_of host c run_id completed_at kind at s).1
  unfolding wake_of
  wake_of-Extends c run_id none kind at s = Extends-refl s
  wake_of-Extends c run_id (some completed_at) kind at s =
      elim (Bool-cases (is_truthy completed_at)) [
        | inl set ↦ rw set (wake_at-Extends c run_id completed_at kind at s)
        | inr empty ↦ rw empty (Extends-refl s)
      ]

  dispatch_wake-Extends :
      (c : Option Continuation) (run : Option Run) (kind : Option String) (run_id at : String)
      (s : Store)
      → Extends s (dispatch_wake host c run kind run_id at s).1
  unfolding dispatch_wake
  dispatch_wake-Extends (some c) (some run) (some kind) run_id at s =
      wake_of-Extends c run_id run.completed_at kind at s
  dispatch_wake-Extends _ _ _ run_id at s = Extends-refl s

  pub materialize_wake-Extends :
      (run_id : String) (status : Option String) (at : String) (s : Store)
      → Extends s (materialize_wake host run_id status at s).1
  unfolding materialize_wake
  materialize_wake-Extends run_id status at s =
      dispatch_wake-Extends (lookup run_id s.continuations) (lookup run_id s.runs) _ run_id at s

  repair_runs-Extends :
      (runs : List Run) (clock : ℕ → String) (n : ℕ) (s : Store)
      → Extends s (repair_runs host runs clock n s).1
  unfolding repair_runs
  repair_runs-Extends [] clock n s = Extends-refl s
  repair_runs-Extends (run ∷ runs) clock n s =
      elim (Option-cases (run_status_to_event run.status)) [
        | inl still ↦ rw (still, repair_runs) (repair_runs-Extends runs clock (n + 1) s)
        | inr (_, ended) ↦
            rw (ended, repair_runs)
              (resume-Extends (materialize_wake host run.run_id (some run.status) (clock n) s).0 _ s
                _ (materialize_wake-Extends run.run_id (some run.status) (clock n) s)
                (λ w.
                  resume-Extends (repair_runs host runs clock (n + 1) _).0 _ _ _
                    (repair_runs-Extends runs clock (n + 1) _) (λ ids. Extends-refl _)))
      ]

  pub repair_wakes-Extends :
      (limit : ℕ) (clock : ℕ → String) (s : Store) → Extends s (repair_wakes host limit clock s).1
  unfolding repair_wakes
  repair_wakes-Extends limit clock s = repair_runs-Extends _ clock 0 s

  pub cancel_continuation-Extends :
      (run_id reason at : String) (s : Store)
      → Extends s (cancel_continuation host run_id reason at s).1
  unfolding cancel_continuation
  cancel_continuation-Extends run_id reason at s =
      elim (Option-cases (lookup run_id s.continuations)) [
        | inl absent ↦ rw (absent, cancel_continuation) (Extends-refl s)
        | inr (c, there) ↦ elim (Bool-cases (c.status =ₛ "cancelled")) [
          | inl over ↦ rw (there, over, cancel_continuation) (Extends-refl s)
          | inr live ↦
              rw (there, live, cancel_continuation)
                (Extends-trans (Extends-of_same refl refl (Frozen-refl s.runs))
                  (event-Extends host run_id none _ _ _))
        ]
      ]

module _ (host : Host) where
  park-Extends : (run_id : String) (c : Continuation) (s : Store) → Extends s (park host run_id c s)
  unfolding park
  park-Extends run_id c s =
      Extends-trans (Extends-of_same refl refl (Frozen-refl s.runs))
        (event-Extends host run_id none _ _ _)

  wake_if_ended-Extends :
      (run_id at : String) (s : Store) → Extends s (wake_if_ended host run_id at s).1
  unfolding wake_if_ended
  wake_if_ended-Extends run_id at s = elim (Option-cases (lookup run_id s.runs)) [
    | inl absent ↦ rw (absent, wake_if_ended) (Extends-refl s)
    | inr (run, there) ↦ elim (Option-cases (run_status_to_event run.status)) [
      | inl still ↦ rw (there, still, wake_if_ended) (Extends-refl s)
      | inr (_, ended) ↦
          rw (there, ended, wake_if_ended)
            (resume-Extends (materialize_wake host run_id (some run.status) at s).0 _ s _
              (materialize_wake-Extends host run_id (some run.status) at s) (λ w. Extends-refl _))
    ]
  ]

  pub register_continuation-Extends :
      (run_id : String) (r : Registration) (at : String) (s : Store)
      → Extends s (register_continuation host run_id r at s).1
  unfolding register_continuation
  register_continuation-Extends run_id r at s =
      elim (Option-cases (normalize_wake_events r.wake_on)) [
        | inl invalid ↦ rw (invalid, register_continuation) (Extends-refl s)
        | inr (events, valid) ↦ elim (Bool-cases (identity_missing r)) [
          | inl missing ↦ rw (valid, missing, register_continuation) (Extends-refl s)
          | inr named ↦
              elim (Bool-cases (rebind_refused (lookup run_id s.continuations) r events)) [
                | inl refused ↦ rw (valid, named, refused, register_continuation) (Extends-refl s)
                | inr open_for ↦
                    rw (valid, named, open_for, register_continuation)
                      (resume-Extends (wake_if_ended host run_id at _).0 _ s _
                        (Extends-trans (park-Extends run_id _ s)
                          (wake_if_ended-Extends run_id at _))
                        (λ _. Extends-refl _))
              ]
        ]
      ]

  register_option-Extends :
      (run_id : String) (r : Option Registration) (at : String) (s : Store)
      → Extends s (register_option host run_id r at s).1
  register_option-Extends run_id none at s = Extends-refl s
  register_option-Extends run_id (some r) at s =
      resume-Extends (register_continuation host run_id r at s).0 _ s _
        (register_continuation-Extends run_id r at s) (λ _. Extends-refl _)

  pub create_run-Extends :
      (plan : Plan) (o : CreateOptions) (at : String) (s : Store)
      → lookup plan.run_id s.runs ≡ none
      → Extends s (create_run host plan o at s).1
  unfolding create_run
  create_run-Extends plan o at s absent =
      resume-Extends (register_option host plan.run_id o.continuation at _).0 _ s _
        (Extends-trans
          (Extends-of_same refl refl (Frozen-put_new plan.run_id (new_run plan o) s.runs absent))
          (Extends-trans (insert_tasks-Extends plan.run_id plan.tasks o.base _)
            (register_option-Extends plan.run_id o.continuation at _)))
        (λ _. event-Extends host plan.run_id none _ _ _)
