-- ===== src/Store/Atomicity.antt =====
-- A refinement that throws leaves no trace.
use agentic_harness.Base.{
  inl, inr, Bool-cases, String, ◌≡◌, refl, ap, ◌∙◌, Option, none, some, List, [], ◌∷◌, arith,
  lookup, put-lookup_self, without-lookup-none, take-length, take, length,
}
use agentic_harness.Host.{Host}
use agentic_harness.Rows.{Plan, Run}
use agentic_harness.Store.Monad.{Store, StoreError, Result, ok, threw, Action, resume, ◌>>◌}
use agentic_harness.Store.Runs.{version_conflict}
use agentic_harness.Store.Refinement.{
  Refinement, DependencyUpdate, remove_task, remove_tasks, update_dependencies,
  update_all_dependencies, commit_refinement, try_from, try_refinement, restored_runs, restore,
  caught, apply_refinement,
}

-- Two stores that differ in their tasks at most.
pub record SameButTasks (a b : Store) : Type 0 where
  pub runs : a.runs ≡ b.runs
  pub events : a.events ≡ b.events
  pub event_sequence : a.event_sequence ≡ b.event_sequence
  pub continuations : a.continuations ≡ b.continuations
  pub deliveries : a.deliveries ≡ b.deliveries

remove_task_keeps : (run_id id : String) (s : Store) → SameButTasks (remove_task run_id id s).1 s
unfolding remove_task
remove_task_keeps run_id id s = ground arith

update_dependencies_keeps :
    (run_id : String) (u : DependencyUpdate) (s : Store)
    → SameButTasks (update_dependencies run_id u s).1 s
unfolding update_dependencies
update_dependencies_keeps run_id u s = ground arith

pub SameButTasks-refl : (s : Store) → SameButTasks s s
SameButTasks-refl s = record {
  runs = refl;
  events = refl;
  event_sequence = refl;
  continuations = refl;
  deliveries = refl;
}

pub SameButTasks-trans : {a b c : Store} → SameButTasks a b → SameButTasks b c → SameButTasks a c
SameButTasks-trans p q = record {
  runs = p.runs ∙ q.runs;
  events = p.events ∙ q.events;
  event_sequence = p.event_sequence ∙ q.event_sequence;
  continuations = p.continuations ∙ q.continuations;
  deliveries = p.deliveries ∙ q.deliveries;
}

resume_keeps :
    {A B : Type 0} (r : Result A) (n : Action B) (s' s : Store)
    → SameButTasks s' s
    → ((t : Store) → SameButTasks (n t).1 t)
    → SameButTasks (resume r (λ _. n) s').1 s
resume_keeps (ok a) n s' s h kn = SameButTasks-trans (kn s') h
resume_keeps (threw e) n s' s h kn = h

pub remove_tasks_keeps :
    (run_id : String) (ids : List String) (s : Store) → SameButTasks (remove_tasks run_id ids s).1 s
unfolding remove_tasks
remove_tasks_keeps run_id [] s = SameButTasks-refl s
remove_tasks_keeps run_id (id ∷ ids) s =
    resume_keeps (remove_task run_id id s).0 (remove_tasks run_id ids) _ s
      (remove_task_keeps run_id id s) (remove_tasks_keeps run_id ids)

pub update_all_dependencies_keeps :
    (run_id : String) (us : List DependencyUpdate) (s : Store)
    → SameButTasks (update_all_dependencies run_id us s).1 s
unfolding update_all_dependencies
update_all_dependencies_keeps run_id [] s = SameButTasks-refl s
update_all_dependencies_keeps run_id (u ∷ us) s =
    resume_keeps (update_dependencies run_id u s).0 (update_all_dependencies run_id us) _ s
      (update_dependencies_keeps run_id u s) (update_all_dependencies_keeps run_id us)

-- A step that throws after `m` has run `m` and then thrown in it or in what follows.
resume_threw_keeps :
    {A B : Type 0} (r : Result A) (n : Action B) (s' s : Store) (e : StoreError)
    → SameButTasks s' s
    → ((t : Store) (e : StoreError) → (n t).0 ≡ threw e → SameButTasks (n t).1 t)
    → (resume r (λ _. n) s').0 ≡ threw e
    → SameButTasks (resume r (λ _. n) s').1 s
resume_threw_keeps (ok a) n s' s e h kn t = SameButTasks-trans (kn s' e t) h
resume_threw_keeps (threw x) n s' s e h kn t = h

module _ (host : Host) (run_id : String) (plan : Plan) (r : Refinement) where
  commit_keeps :
      (current : Run) (s : Store) (e : StoreError)
      → (commit_refinement host run_id plan r current s).0 ≡ threw e
      → SameButTasks (commit_refinement host run_id plan r current s).1 s
  unfolding commit_refinement
  commit_keeps current s e h = cc

  updates_keep :
      (current : Run) (s : Store) (e : StoreError)
      → let rest =
          update_all_dependencies run_id r.dependency_updates
          >> commit_refinement host run_id plan r current in
        (rest s).0 ≡ threw e → SameButTasks (rest s).1 s
  updates_keep current s e h =
      resume_threw_keeps (update_all_dependencies run_id r.dependency_updates s).0
        (commit_refinement host run_id plan r current) _ s e
        (update_all_dependencies_keeps run_id r.dependency_updates s) (commit_keeps current) h

  try_keeps :
      (o : Option Run) (s : Store) (e : StoreError)
      → (try_from host run_id plan r o s).0 ≡ threw e
      → SameButTasks (try_from host run_id plan r o s).1 s
  unfolding try_from
  try_keeps none s e h = SameButTasks-refl s
  try_keeps (some current) s e h =
      elim (Bool-cases (version_conflict r.options.expected_version current.state_version)) [
        | inl c ↦ rw c (SameButTasks-refl s)
        | inr c ↦ rw c (
            resume_threw_keeps (remove_tasks run_id r.removed_task_ids s).0
              (update_all_dependencies run_id r.dependency_updates
                >> commit_refinement host run_id plan r current)
              _ s e (remove_tasks_keeps run_id r.removed_task_ids s) (updates_keep current)
              (rw c at h))
      ]

  restore_runs :
      (s : Store) → restored_runs host run_id plan r (lookup run_id s.runs) s.runs ≡ s.runs
  restore_runs s = go (lookup run_id s.runs) refl
    where
      go :
          (o : Option Run)
          → lookup run_id s.runs ≡ o
          → restored_runs host run_id plan r o s.runs ≡ s.runs
      go none h = without-lookup-none run_id s.runs h
      go (some v) h = put-lookup_self run_id v s.runs h

  restore_keeps : (s t : Store) → SameButTasks t s → restore host run_id plan r s t ≡ s
  restore_keeps s t h = ground (
    arith,
    restore_runs s,
    take-length s.events,
    ap (restored_runs host run_id plan r (lookup run_id s.runs)) h.runs,
    ap (take (length s.events)) h.events,
  )

  -- The catch block, after a body that changed the tasks at most where it threw.
  caught_keeps :
      (x : Result Run) (s t : Store) (e : StoreError)
      → (x ≡ threw e → SameButTasks t s)
      → (caught host run_id plan r s x t).0 ≡ threw e
      → (caught host run_id plan r s x t).1 ≡ s
  caught_keeps (ok run) s t e k h = cc
  caught_keeps (threw x) s t e k h = restore_keeps s t (k h)

  -- A refinement that throws leaves the whole store as it was before the call.
  pub apply_refinement_atomic :
      (s : Store) (e : StoreError)
      → (apply_refinement host run_id plan r s).0 ≡ threw e
      → (apply_refinement host run_id plan r s).1 ≡ s
  unfolding apply_refinement try_refinement
  apply_refinement_atomic s e h =
      caught_keeps (try_refinement host run_id plan r s).0 s _ e
        (try_keeps (lookup run_id s.runs) s e) h
