-- ===== src/Store/Versions.antt =====
-- Optimistic versions: of two writers that read the same version of a row, one writes.
use agentic_harness.Base.{
  ℕ, ◌+◌, String, ◌≡◌, refl, ap, true, false, Option, some, arith, lookup, lookup-put, eq_refl,
  Bool-cases, Option-cases, inl, inr,
}
use agentic_harness.Rows.{Run, RunPatch, Task, TaskPatch}
use agentic_harness.RunInvariants.{assert_terminal_run_patch}
use agentic_harness.Store.Monad.{
  Store, Result, ok, threw, run_version_conflict, task_version_conflict,
}
use agentic_harness.Store.Runs.{Options, version_conflict, update_run, update_task}

-- What a successful update leaves: the row that it returns, at the next version.
record Written {ℓ} {Row : Type ℓ} (version : Row → ℕ) (expected : ℕ) (row : Row)
    (there : Option Row) : Type ℓ where
  found : there ≡ some row
  next : version row ≡ expected + 1

conflict_after : (v n : ℕ) → n ≡ v + 1 → version_conflict (some v) n ≡ true
conflict_after v n h = ground arith

agree : (v n : ℕ) → version_conflict (some v) n ≡ false → n ≡ v
agree v n h = ground arith

some_ok_injective :
    {Row : Type 0} (a b : Row) → ◌≡◌ {A = Result (Option Row)} (ok (some a)) (ok (some b)) → a ≡ b
some_ok_injective a b h = cc

update_run-Written :
    (run_id : String) (patch : RunPatch) (o : Options) (v : ℕ) (s t : Store) (row : Run)
    → o.expected_version ≡ some v
    → update_run run_id patch o s ≡ (ok (some row), t)
    → Written (λ (r : Run). r.state_version) v row (lookup run_id t.runs)
unfolding update_run
update_run-Written run_id patch o v s t row ev h = elim (Option-cases (lookup run_id s.runs)) [
  | inl absent ↦ absurd (cc (rw (absent, update_run) at h))
  | inr (current, there) ↦
      elim (Bool-cases (version_conflict o.expected_version current.state_version)) [
        | inl stale ↦ absurd (cc (rw (there, stale, update_run) at h))
        | inr fresh ↦ elim (Option-cases (assert_terminal_run_patch current patch)) [
          | inr (e, refused) ↦ absurd (cc (rw (there, fresh, refused, update_run) at h))
          | inl passed ↦
              let e = rw (there, fresh, passed, update_run) at h in
              rw (← ap (λ p. p.1) e, ← some_ok_injective _ row (ap (λ p. p.0) e))
                (record {
                  found = rw (lookup-put, eq_refl run_id);
                  next = omega (arith, agree v current.state_version (rw ev at fresh));
                })
        ]
      ]
]

update_task-Written :
    (task_id : String) (patch : TaskPatch) (o : Options) (v : ℕ) (s t : Store) (row : Task)
    → o.expected_version ≡ some v
    → update_task task_id patch o s ≡ (ok (some row), t)
    → Written (λ (r : Task). r.state_version) v row (lookup task_id t.tasks)
unfolding update_task
update_task-Written task_id patch o v s t row ev h = elim (Option-cases (lookup task_id s.tasks)) [
  | inl absent ↦ absurd (cc (rw (absent, update_task) at h))
  | inr (current, there) ↦
      elim (Bool-cases (version_conflict o.expected_version current.state_version)) [
        | inl stale ↦ absurd (cc (rw (there, stale, update_task) at h))
        | inr fresh ↦
            let e = rw (there, fresh, update_task) at h in
            rw (← ap (λ p. p.1) e, ← some_ok_injective _ row (ap (λ p. p.0) e))
              (record {
                found = rw (lookup-put, eq_refl task_id);
                next = omega (arith, agree v current.state_version (rw ev at fresh));
              })
      ]
]

-- Two patches of one run against the same version: once the first is written, at the next version,
-- the second is refused with both versions named, and changes nothing.
pub update_run_stale :
    (run_id : String) (first second : RunPatch) (o o' : Options) (v : ℕ) (s t : Store) (row : Run)
    → o.expected_version ≡ some v
    → o'.expected_version ≡ some v
    → update_run run_id first o s ≡ (ok (some row), t)
    → (row.state_version ≡ v + 1)
      × (update_run run_id second o' t ≡ (threw (run_version_conflict run_id v (v + 1)), t))
unfolding update_run
update_run_stale run_id first second o o' v s t row ev ev' h =
    let x = update_run-Written run_id first o v s t row ev h in
    (x.next, rw (x.found, update_run) (rw (ev', x.next) (rw (conflict_after v (v + 1) refl))))

-- Two patches of one task against the same version: once the first is written, at the next version,
-- the second is refused with both versions named, and changes nothing.
pub update_task_stale :
    (task_id : String) (first second : TaskPatch) (o o' : Options) (v : ℕ) (s t : Store)
    (row : Task)
    → o.expected_version ≡ some v
    → o'.expected_version ≡ some v
    → update_task task_id first o s ≡ (ok (some row), t)
    → (row.state_version ≡ v + 1)
      × (update_task task_id second o' t ≡ (threw (task_version_conflict task_id v (v + 1)), t))
unfolding update_task
update_task_stale task_id first second o o' v s t row ev ev' h =
    let x = update_task-Written task_id first o v s t row ev h in
    (x.next, rw (x.found, update_task) (rw (ev', x.next) (rw (conflict_after v (v + 1) refl))))
