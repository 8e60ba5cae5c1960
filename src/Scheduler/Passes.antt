-- ===== src/Scheduler/Passes.antt =====
-- One round of the cascade cancels, in place, the doomed tasks of the run and no other.
use agentic_harness.Base.{
  ◌+◌, String, ◌≡◌, refl, sym, subst, ap, ◌∙◌, Bool, true, false, ◌&&◌, none, some, List, [], ◌∷◌,
  ◌++◌, arith, Dict, lookup, put, elem, keep, values, any, eq_iff, eq_refl, ◌=ₛ◌, if◌then◌else◌,
  Bool-cases, inl, inr,
}
use mathlib.Core.List.{append_assoc}
use agentic_harness.Host.{Host}
use agentic_harness.Rows.{Task, assign_task}
use agentic_harness.Store.Monad.{Store}
use agentic_harness.Store.Events.{event}
use agentic_harness.Store.Runs.{list_tasks, update_task}
use agentic_harness.Scheduler.{no_options, state_map}
use agentic_harness.Scheduler.Cascade.{
  is_doomed, cancel_patch, cancel_task, cascade_pass, cascade_round,
}

-- Each task under its identifier, once.
abbrev pub IsKeyed : List String → Dict Task → Type 0
IsKeyed seen [] = Unit
IsKeyed seen ((k, t) ∷ d) = (elem k seen ≡ false) × (k ≡ t.task_id) × IsKeyed (k ∷ seen) d

-- No key outside the list.
abbrev KeysIn : List String → Dict Task → Type 0
KeysIn seen d = (k : String) → elem k seen ≡ false → lookup k d ≡ none

lookup-append_fresh :
    (k : String) (d e : Dict Task) → lookup k d ≡ none → lookup k (d ++ e) ≡ lookup k e
unfolding lookup
lookup-append_fresh k [] e h = refl
lookup-append_fresh k ((j, t) ∷ d) e h = ground (arith, lookup-append_fresh k d e)

put-append_fresh :
    (k : String) (v : Task) (d e : Dict Task)
    → lookup k d ≡ none
    → put k v (d ++ e) ≡ d ++ put k v e
unfolding lookup put
put-append_fresh k v [] e h = refl
put-append_fresh k v ((j, t) ∷ d) e h = elim (Bool-cases (j =ₛ k)) [
  | inl same ↦ absurd (ground arith)
  | inr other ↦ rw other (ap (λ r. (j, t) ∷ r) (put-append_fresh k v d e (rw other at h)))
]

KeysIn-add :
    (seen : List String) (done : Dict Task) (k : String) (t : Task)
    → KeysIn seen done
    → KeysIn (k ∷ seen) (done ++ (k, t) ∷ [])
unfolding lookup
KeysIn-add seen done k t h j fresh =
    lookup-append_fresh j done ((k, t) ∷ []) (h j (ground arith))
    ∙ ground (arith, eq_iff k j, eq_iff j k)

module _ (at : String → String) where
  abbrev pub cancelled_row : Task → Task
  cancelled_row t = record (assign_task t (cancel_patch (at t.task_id))) {
    state_version = t.state_version + 1;
  }

  -- The tasks after a round.
  abbrev pub cancelled_in : String → Dict String → Dict Task → Dict Task
  cancelled_in run_id states [] = []
  cancelled_in run_id states ((k, t) ∷ d) =
      (k, if t.run_id =ₛ run_id && is_doomed states t then cancelled_row t else t)
      ∷ cancelled_in run_id states d

-- The tasks of the run in an order of the map.
abbrev pub listed : String → Dict Task → List Task
listed run_id d = keep (λ t. t.run_id =ₛ run_id) (values d)

update_task-tasks :
    (t : Task) (at : String → String) (s : Store)
    → lookup t.task_id s.tasks ≡ some t
    → (update_task t.task_id (cancel_patch (at t.task_id)) no_options s).1.tasks
      ≡ put t.task_id (cancelled_row at t) s.tasks
unfolding update_task
update_task-tasks t at s there = rw (there, update_task)

module _ (host : Host) (run_id : String) (at : String → String) (states : Dict String) where
  -- The event leaves the tasks.
  cancel_task-writes :
      (t : Task) (s : Store)
      → (cancel_task host run_id at t s).tasks
        ≡ (update_task t.task_id (cancel_patch (at t.task_id)) no_options s).1.tasks
  unfolding cancel_task event
  cancel_task-writes t s = refl

  -- Cancelling the first task that is left changes it in place.
  cancel_task-tasks :
      (t : Task) (done rest : Dict Task) (s : Store)
      → lookup t.task_id done ≡ none
      → s.tasks ≡ done ++ (t.task_id, t) ∷ rest
      → (cancel_task host run_id at t s).tasks ≡ done ++ (t.task_id, cancelled_row at t) ∷ rest
  unfolding lookup put
  cancel_task-tasks t done rest s fresh e =
      let there : lookup t.task_id s.tasks ≡ some t =
        ap (lookup t.task_id) e
        ∙ lookup-append_fresh t.task_id done ((t.task_id, t) ∷ rest) fresh
        ∙ ground (arith, eq_refl t.task_id) in
      cancel_task-writes t s
      ∙ update_task-tasks t at s there
      ∙ ap (put t.task_id (cancelled_row at t)) e
      ∙ put-append_fresh t.task_id (cancelled_row at t) done ((t.task_id, t) ∷ rest) fresh
      ∙ ap (λ r. done ++ r) (ground (arith, eq_refl t.task_id))

  pass_doomed :
      (t : Task) (ts : List Task) (s : Store)
      → is_doomed states t ≡ true
      → cascade_pass host run_id at states (t ∷ ts) s
        ≡ (true, (cascade_pass host run_id at states ts (cancel_task host run_id at t s)).1)
  unfolding cascade_pass
  pass_doomed t ts s h = rw (h, cascade_pass)

  pass_kept :
      (t : Task) (ts : List Task) (s : Store)
      → is_doomed states t ≡ false
      → cascade_pass host run_id at states (t ∷ ts) s ≡ cascade_pass host run_id at states ts s
  unfolding cascade_pass
  pass_kept t ts s h = rw (h, cascade_pass)

  -- What the rest of a pass makes of the store, where the earlier tasks are done.
  abbrev PassAt : (done rest after : Dict Task) → Store → Type 0
  PassAt done rest after s =
      ((cascade_pass host run_id at states (listed run_id rest) s).1.tasks ≡ done ++ after)
      × ((cascade_pass host run_id at states (listed run_id rest) s).0
          ≡ any (is_doomed states) (listed run_id rest))

  pass_from :
      (seen : List String) (done rest : Dict Task) (s : Store)
      → IsKeyed seen rest
      → KeysIn seen done
      → s.tasks ≡ done ++ rest
      → PassAt done rest (cancelled_in at run_id states rest) s
  unfolding cascade_pass keep values any
  pass_from seen done [] s keyed keys e = (e, refl)
  pass_from seen done ((k, t) ∷ rest) s (fresh, own, keyed) keys e =
      let later = λ (row : Task) (r : Store) (h : r.tasks ≡ done ++ (k, row) ∷ rest).
        pass_from (k ∷ seen) (done ++ (k, row) ∷ []) rest r keyed (KeysIn-add seen done k row keys)
          (h ∙ sym (append_assoc done ((k, row) ∷ []) rest)) in
      let rejoin =
        λ (row : Task). append_assoc done ((k, row) ∷ []) (cancelled_in at run_id states rest) in
      elim (Bool-cases (t.run_id =ₛ run_id)) [
        | inr foreign ↦ let (tasks, flag) = later t s e in rw foreign (tasks ∙ rejoin t, flag)
        | inl mine ↦ elim (Bool-cases (is_doomed states t)) [
          | inr kept ↦
              let (tasks, flag) = later t s e in
              let first = pass_kept t (listed run_id rest) s kept in
              rw (mine, kept)
                (
                  ap (λ (p : Bool × Store). p.1.tasks) first ∙ tasks ∙ rejoin t,
                  ap (λ (p : Bool × Store). p.0) first ∙ flag,
                )
          | inl doomed ↦
              let absent = keys t.task_id (subst (λ i. elem i seen ≡ false) own fresh) in
              let written =
                cancel_task-tasks t done rest s absent
                  (subst (λ i. s.tasks ≡ done ++ (i, t) ∷ rest) own e) in
              let (tasks, _) = later (cancelled_row at t) (cancel_task host run_id at t s) (
                subst
                  (λ i.
                    (cancel_task host run_id at t s).tasks ≡ done ++ (i, cancelled_row at t) ∷ rest)
                  (sym own) written) in
              let first = pass_doomed t (listed run_id rest) s doomed in
              rw (mine, doomed)
                (
                  ap (λ (p : Bool × Store). p.1.tasks) first ∙ tasks ∙ rejoin (cancelled_row at t),
                  ap (λ (p : Bool × Store). p.0) first,
                )
        ]
      ]

-- A round writes what the tasks before it say, and reports whether there was anything to cancel.
pub cascade_round_lem :
    (host : Host) (run_id : String) (at : String → String) (s : Store)
    → IsKeyed [] s.tasks
    → let tasks = listed run_id s.tasks in
      ((cascade_round host run_id at s).1.tasks ≡ cancelled_in at run_id (state_map tasks) s.tasks)
      × ((cascade_round host run_id at s).0 ≡ any (is_doomed (state_map tasks)) tasks)
unfolding cascade_round list_tasks lookup
cascade_round_lem host run_id at s keyed =
    pass_from host run_id at (state_map (listed run_id s.tasks)) [] [] s.tasks s keyed (λ k h. refl)
      refl
