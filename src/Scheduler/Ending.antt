-- ===== src/Scheduler/Ending.antt =====
-- The cascade of failed dependencies ends, and what it leaves.
use agentic_harness.Base.{
  ℕ, zero, suc, ◌+◌, ◌≤◌, String, ◌≡◌, refl, sym, subst, ap, ◌∙◌, true, false, ◌&&◌, some, List, [],
  ◌∷◌, arith, Dict, elem, keep, values, any, ◌=ₛ◌, if◌then◌else◌, Bool-cases, inl, inr,
}
use agentic_harness.Host.{Host}
use agentic_harness.Rows.{Task, assign_task}
use agentic_harness.Store.Monad.{Store}
use agentic_harness.Scheduler.{pending_statuses, state_map}
use agentic_harness.Scheduler.Cascade.{is_doomed, cascade_round, cascade}
use agentic_harness.Scheduler.Advance.{FailsMore-states}
use agentic_harness.Scheduler.Settled.{
  pending, Settles, Settles-refl, cancelled-ids, round-Settles, Advances-round,
}
use agentic_harness.Scheduler.Passes.{
  IsKeyed, cancelled_row, cancelled_in, listed, cascade_round_lem,
}

module _ (at : String → String) (run_id : String) where
  doomed-pending :
      (states : Dict String) (t : Task)
      → is_doomed states t ≡ true
      → elem t.status pending_statuses ≡ true
  unfolding is_doomed
  doomed-pending states t h = ground arith

  cancelled-not_pending : (t : Task) → elem (cancelled_row at t).status pending_statuses ≡ false
  unfolding assign_task
  cancelled-not_pending t = refl

  pending-cancelled_in :
      (states : Dict String) (d : Dict Task)
      → pending at run_id (cancelled_in at run_id states d)
          + (if any (is_doomed states) (listed run_id d) then 1 else 0)
        ≤ pending at run_id d
  unfolding any keep values
  pending-cancelled_in states [] = omega arith
  pending-cancelled_in states ((k, t) ∷ d) = elim (Bool-cases (t.run_id =ₛ run_id)) [
    | inr foreign ↦ rw foreign (ground (arith, foreign, pending-cancelled_in states d))
    | inl mine ↦ elim (Bool-cases (is_doomed states t)) [
      | inl doomed ↦
          rw (mine, doomed)
            (ground (
              arith,
              pending-cancelled_in states d,
              doomed-pending states t doomed,
              cancelled-not_pending t,
            ))
      | inr kept ↦ rw (mine, kept) (ground (arith, mine, pending-cancelled_in states d))
    ]
  ]

  cancelled_in-IsKeyed :
      (states : Dict String) (seen : List String) (d : Dict Task)
      → IsKeyed seen d
      → IsKeyed seen (cancelled_in at run_id states d)
  cancelled_in-IsKeyed states seen [] h = tt
  cancelled_in-IsKeyed states seen ((k, t) ∷ d) (fresh, own, later) = (
    fresh,
    elim (Bool-cases (t.run_id =ₛ run_id && is_doomed states t)) [
      | inl cancelled ↦ rw cancelled (own ∙ sym (cancelled-ids at run_id t).0)
      | inr kept ↦ rw kept own
    ],
    cancelled_in-IsKeyed states (k ∷ seen) d later,
  )

  none_cancelled :
      (states : Dict String) (d : Dict Task)
      → any (is_doomed states) (listed run_id d) ≡ false
      → cancelled_in at run_id states d ≡ d
  unfolding any keep values
  none_cancelled states [] h = refl
  none_cancelled states ((k, t) ∷ d) h = elim (Bool-cases (t.run_id =ₛ run_id)) [
    | inr foreign ↦ rw foreign (ap (λ r. (k, t) ∷ r) (none_cancelled states d (rw foreign at h)))
    | inl mine ↦ elim (Bool-cases (is_doomed states t)) [
      | inl doomed ↦ absurd (cc (rw (mine, doomed) at h))
      | inr kept ↦
          rw (mine, kept) (ap (λ r. (k, t) ∷ r) (none_cancelled states d (rw (mine, kept) at h)))
    ]
  ]

  -- What the cascade leaves: each task as it was or cancelled for a failed dependency, and no task of
  -- the run that waits for its dispatch while a dependency has failed.
  pub record IsSettled (before after : Dict Task) : Type 0 where
    pub changes : Settles at run_id (state_map (listed run_id after)) before after
    pub none_doomed :
        any (is_doomed (state_map (listed run_id after))) (listed run_id after) ≡ false

  module _ (host : Host) where
    ended :
        (s : Store)
        → IsKeyed [] s.tasks
        → (cascade_round host run_id at s).0 ≡ false
        → IsSettled s.tasks (cascade_round host run_id at s).1.tasks
    ended s keyed still =
        let (tasks, flag) = cascade_round_lem host run_id at s keyed in
        let states = state_map (listed run_id s.tasks) in
        let none_doomed = sym flag ∙ still in
        subst (λ d. IsSettled s.tasks d) (sym (tasks ∙ none_cancelled states s.tasks none_doomed))
          (record { changes = Settles-refl at run_id states s.tasks; none_doomed = none_doomed })

    more_rounds :
        (s : Store) (after : Dict Task)
        → IsKeyed [] s.tasks
        → IsSettled (cascade_round host run_id at s).1.tasks after
        → IsSettled s.tasks after
    unfolding state_map
    more_rounds s after keyed settled =
        let (tasks, _) = cascade_round_lem host run_id at s keyed in
        let states = state_map (listed run_id s.tasks) in
        let final = state_map (listed run_id after) in
        let changes = subst (λ d. Settles at run_id final d after) tasks settled.changes in
        let more =
          FailsMore-states run_id s.tasks after
            (Advances-round at run_id states final s.tasks after changes) [] [] (λ id h. h) in
        record {
          changes = round-Settles at run_id states final s.tasks after more changes;
          none_doomed = settled.none_doomed;
        }

    round-pending :
        (s : Store)
        → IsKeyed [] s.tasks
        → (cascade_round host run_id at s).0 ≡ true
        → pending at run_id (cascade_round host run_id at s).1.tasks + 1 ≤ pending at run_id s.tasks
    round-pending s keyed changed =
        let (tasks, flag) = cascade_round_lem host run_id at s keyed in
        let states = state_map (listed run_id s.tasks) in
        ground
          (arith, pending-cancelled_in states s.tasks, ap (pending at run_id) tasks, flag, changed)

    round-IsKeyed :
        (s : Store) → IsKeyed [] s.tasks → IsKeyed [] (cascade_round host run_id at s).1.tasks
    round-IsKeyed s keyed =
        let (tasks, _) = cascade_round_lem host run_id at s keyed in
        subst (IsKeyed []) (sym tasks)
          (cancelled_in-IsKeyed (state_map (listed run_id s.tasks)) [] s.tasks keyed)

    -- As many rounds as tasks of the run wait for their dispatch are enough for the cascade to end.
    -- Then each task is as it was, or it waited for its dispatch, depends on a task that has failed
    -- in the end, and is cancelled for that; and no task of the run waits with a dependency that has
    -- failed. The map has each task once, under its identifier.
    pub cascade-IsSettled :
        (fuel : ℕ) (s : Store)
        → IsKeyed [] s.tasks
        → pending at run_id s.tasks ≤ fuel
        → (t : Store) × (cascade host run_id at fuel s ≡ some t) × IsSettled s.tasks t.tasks
    unfolding cascade
    cascade-IsSettled zero s keyed enough = elim (Bool-cases (cascade_round host run_id at s).0) [
      | inr still ↦ ((cascade_round host run_id at s).1, rw (still, cascade), ended s keyed still)
      | inl changed ↦ absurd (omega (arith, round-pending s keyed changed))
    ]
    cascade-IsSettled (suc n) s keyed enough =
        elim (Bool-cases (cascade_round host run_id at s).0) [
          | inr still ↦
              ((cascade_round host run_id at s).1, rw (still, cascade), ended s keyed still)
          | inl changed ↦
              let (t, e, settled) =
                cascade-IsSettled n (cascade_round host run_id at s).1 (round-IsKeyed s keyed)
                  (omega (arith, round-pending s keyed changed)) in
              (t, rw (changed, cascade) e, more_rounds s t.tasks keyed settled)
        ]
