-- ===== src/RunInvariants/Guard.antt =====
-- What a patch that passes the guard does to a run that has ended.
use agentic_harness.Base.{String, ◌≡◌, refl, true, Option, none, some, arith, opt_eq, eq_iff}
use agentic_harness.Rows.{Run, RunPatch, assign_run}
use agentic_harness.RunInvariants.{
  is_terminal_run_status, check_occurrence, assert_terminal_run_patch,
}

pub eq_of_opt_eq : (a b : Option String) → opt_eq a b ≡ true → a ≡ b
eq_of_opt_eq none none h = refl
eq_of_opt_eq none (some y) h = cc
eq_of_opt_eq (some x) none h = cc
eq_of_opt_eq (some x) (some y) h = ground (arith, eq_iff x y)

completed_at_kept :
    (current : Run) (patch : RunPatch) (o : Option (Option String))
    → patch.completed_at ≡ o
    → check_occurrence current patch ≡ none
    → (assign_run current patch).completed_at ≡ current.completed_at
unfolding check_occurrence assign_run
completed_at_kept current patch none e h = rw e
completed_at_kept current patch (some next) e h =
    rw e (eq_of_opt_eq next current.completed_at (ground arith))

status_kept :
    (current : Run) (patch : RunPatch) (o : Option String)
    → patch.status ≡ o
    → is_terminal_run_status current.status ≡ true
    → assert_terminal_run_patch current patch ≡ none
    → ((assign_run current patch).status ≡ current.status) × (check_occurrence current patch ≡ none)
unfolding assert_terminal_run_patch assign_run
status_kept current patch none e ended h = ground arith
status_kept current patch (some next) e ended h = ground (arith, eq_iff next current.status)

-- A patch that the guard lets pass keeps the status and the end time of a run that has ended.
pub assign_run_keeps_end :
    (current : Run) (patch : RunPatch)
    → assert_terminal_run_patch current patch ≡ none
    → is_terminal_run_status current.status ≡ true
    → ((assign_run current patch).status ≡ current.status)
      × ((assign_run current patch).completed_at ≡ current.completed_at)
assign_run_keeps_end current patch h ended =
    let (same, checked) = status_kept current patch patch.status refl ended h in
    (same, completed_at_kept current patch patch.completed_at refl checked)
