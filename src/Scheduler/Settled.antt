-- ===== src/Scheduler/Settled.antt =====
-- What the rounds of the cascade change.
use agentic_harness.Base.{
  ℕ, ◌+◌, String, ◌≡◌, refl, sym, subst, ◌∙◌, ◌⊎◌, true, false, ◌&&◌, [], ◌∷◌, arith, Dict, elem,
  ◌=ₛ◌, if◌then◌else◌, Bool-cases, inl, inr,
}
use agentic_harness.Rows.{Task, assign_task}
use agentic_harness.Contracts.{failed_task_statuses}
use agentic_harness.Scheduler.{pending_statuses}
use agentic_harness.Scheduler.Cascade.{is_doomed}
use agentic_harness.Scheduler.Advance.{FailsMore, Advances, doomed_still}
use agentic_harness.Scheduler.Passes.{cancelled_row, cancelled_in}

module _ (at : String → String) (run_id : String) where
  -- The tasks of the run that wait for their dispatch.
  abbrev pub pending : Dict Task → ℕ
  pending [] = 0
  pending ((k, t) ∷ d) =
      (if t.run_id =ₛ run_id && elem t.status pending_statuses then 1 else 0) + pending d

  -- The task is as it was, or it waited for its dispatch, depends on a task that the states say to
  -- have failed, and is cancelled for that.
  abbrev pub Settled : Dict String → Task → Task → Type 0
  Settled states t u =
      (u ≡ t)
      ⊎ ((t.run_id =ₛ run_id) ≡ true) × (is_doomed states t ≡ true) × (u ≡ cancelled_row at t)

  abbrev pub Settles : Dict String → Dict Task → Dict Task → Type 0
  Settles states [] [] = Unit
  Settles states ((j, t) ∷ d) ((k, u) ∷ e) = (k ≡ j) × Settled states t u × Settles states d e
  Settles states _ _ = ⊥

  pub Settles-refl : (states : Dict String) (d : Dict Task) → Settles states d d
  Settles-refl states [] = tt
  Settles-refl states ((k, t) ∷ d) = (refl, inl refl, Settles-refl states d)

  cancelled-failed : (t : Task) → elem (cancelled_row at t).status failed_task_statuses ≡ true
  unfolding assign_task
  cancelled-failed t = refl

  not_doomed_again :
      (states : Dict String) (t : Task) → is_doomed states (cancelled_row at t) ≡ false
  unfolding is_doomed assign_task
  not_doomed_again states t = refl

  pub cancelled-ids :
      (t : Task)
      → ((cancelled_row at t).task_id ≡ t.task_id) × ((cancelled_row at t).run_id ≡ t.run_id)
  unfolding assign_task
  cancelled-ids t = (refl, refl)

  abbrev Advanced : Task → Task → Type 0
  Advanced t u =
      (u.task_id ≡ t.task_id)
      × (u.run_id ≡ t.run_id)
      × (elem t.status failed_task_statuses ≡ true → elem u.status failed_task_statuses ≡ true)

  cancelled-Advanced : (t : Task) → Advanced t (cancelled_row at t)
  unfolding assign_task
  cancelled-Advanced t = (refl, refl, λ f. refl)

  Settled-Advanced : (states : Dict String) (t u : Task) → Settled states t u → Advanced t u
  Settled-Advanced states t u (inl same) = subst (Advanced t) (sym same) (refl, refl, λ f. f)
  Settled-Advanced states t u (inr (_, _, cancelled)) =
      subst (Advanced t) (sym cancelled) (cancelled-Advanced t)

  pub Advances-round :
      (states final : Dict String) (d e : Dict Task)
      → Settles final (cancelled_in at run_id states d) e
      → Advances d e
  Advances-round states final [] [] h = tt
  Advances-round states final [] (_ ∷ e) h = absurd h
  Advances-round states final ((j, t) ∷ d) [] h = absurd h
  Advances-round states final ((j, t) ∷ d) ((k, u) ∷ e) (key, changed, later) =
      let rest = Advances-round states final d e later in
      elim (Bool-cases (t.run_id =ₛ run_id && is_doomed states t)) [
        | inr kept ↦
            let (id, run, fails) = Settled-Advanced final t u (rw kept at changed) in
            (id, run, fails, rest)
        | inl both ↦
            let (id₁, run₁, fails₁) = cancelled-Advanced t in
            let (id₂, run₂, fails₂) =
              Settled-Advanced final (cancelled_row at t) u (rw both at changed) in
            (id₂ ∙ id₁, run₂ ∙ run₁, λ f. fails₂ (fails₁ f), rest)
      ]

  -- One round, then what settles.
  pub round-Settles :
      (states final : Dict String) (d e : Dict Task)
      → FailsMore states final
      → Settles final (cancelled_in at run_id states d) e
      → Settles final d e
  round-Settles states final [] [] more h = tt
  round-Settles states final [] (_ ∷ e) more h = absurd h
  round-Settles states final ((j, t) ∷ d) [] more h = absurd h
  round-Settles states final ((j, t) ∷ d) ((k, u) ∷ e) more (key, changed, later) = (
    key,
    elim (Bool-cases (t.run_id =ₛ run_id && is_doomed states t)) [
      | inr kept ↦ rw kept at changed
      | inl both ↦ elim (rw both at changed) [
        | inl same ↦ inr (ground arith, doomed_still states final t more (ground arith), same)
        | inr (_, again, _) ↦ absurd (cc (again, not_doomed_again final t))
      ]
    ],
    round-Settles states final d e more later,
  )
