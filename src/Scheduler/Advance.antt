-- ===== src/Scheduler/Advance.antt =====
-- Tasks that fail stay failed, and so does what depends on them.
use agentic_harness.Base.{
  String, ◌≡◌, refl, true, List, [], ◌∷◌, arith, Dict, lookup, put, lookup-put, elem, keep, values,
  any, ◌=ₛ◌, Bool-cases, inl, inr,
}
use agentic_harness.Rows.{Task}
use agentic_harness.Contracts.{failed_task_statuses, has_status, dependencies_failed}
use agentic_harness.Scheduler.{state_from}
use agentic_harness.Scheduler.Cascade.{is_doomed}
use agentic_harness.Scheduler.Passes.{listed}

-- What is failed by the first states is failed by the second ones.
abbrev pub FailsMore : Dict String → Dict String → Type 0
FailsMore a b =
    (id : String)
    → has_status failed_task_statuses (lookup id a) ≡ true
    → has_status failed_task_statuses (lookup id b) ≡ true

-- The same tasks, none of which ceases to be failed.
abbrev pub Advances : Dict Task → Dict Task → Type 0
Advances [] [] = Unit
Advances ((j, t) ∷ d) ((k, u) ∷ e) =
    (u.task_id ≡ t.task_id)
    × (u.run_id ≡ t.run_id)
    × (elem t.status failed_task_statuses ≡ true → elem u.status failed_task_statuses ≡ true)
    × Advances d e
Advances _ _ = ⊥

FailsMore-put :
    (a b : Dict String) (id before after : String)
    → FailsMore a b
    → (elem before failed_task_statuses ≡ true → elem after failed_task_statuses ≡ true)
    → FailsMore (put id before a) (put id after b)
FailsMore-put a b id before after h own j failed = elim (Bool-cases (id =ₛ j)) [
  | inl same ↦ rw (lookup-put, same) (own (rw (lookup-put, same) at failed))
  | inr other ↦ rw (lookup-put, other) (h j (rw (lookup-put, other) at failed))
]

pub FailsMore-states :
    (run_id : String) (d e : Dict Task)
    → Advances d e
    → (a b : Dict String) → FailsMore a b
    → FailsMore (state_from a (listed run_id d)) (state_from b (listed run_id e))
unfolding keep values
FailsMore-states run_id [] [] advances a b h = h
FailsMore-states run_id [] (_ ∷ e) advances a b h = absurd advances
FailsMore-states run_id ((j, t) ∷ d) [] advances a b h = absurd advances
FailsMore-states run_id ((j, t) ∷ d) ((k, u) ∷ e) (id, run, own, later) a b h =
    elim (Bool-cases (t.run_id =ₛ run_id)) [
      | inl mine ↦
          rw (run, mine, id)
            (FailsMore-states run_id d e later (put t.task_id t.status a) (put t.task_id u.status b)
              (FailsMore-put a b t.task_id t.status u.status h own))
      | inr foreign ↦ rw (run, foreign) (FailsMore-states run_id d e later a b h)
    ]

any_failed :
    (a b : Dict String) (ids : List String)
    → FailsMore a b
    → any (λ id. has_status failed_task_statuses (lookup id a)) ids ≡ true
    → any (λ id. has_status failed_task_statuses (lookup id b)) ids ≡ true
unfolding any
any_failed a b [] h failed = failed
any_failed a b (id ∷ ids) h failed =
    elim (Bool-cases (has_status failed_task_statuses (lookup id a))) [
      | inl here ↦ rw (h id here) refl
      | inr not_here ↦ ground (arith, any_failed a b ids h (rw not_here at failed))
    ]

pub doomed_still :
    (a b : Dict String) (t : Task) → FailsMore a b → is_doomed a t ≡ true → is_doomed b t ≡ true
unfolding is_doomed dependencies_failed
doomed_still a b t h doomed = ground (arith, any_failed a b t.dependencies h (ground arith))
