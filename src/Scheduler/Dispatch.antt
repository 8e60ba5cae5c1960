-- ===== src/Scheduler/Dispatch.antt =====
-- .agents/runtime/event-driven-reconciler.mjs: what is selected for dispatch.
use agentic_harness.Base.{
  ℕ, ◌+◌, ◌-◌, ◌≤◌, String, ◌≡◌, ap, ◌∙◌, true, false, List, arith, All, All-imp, All-keep,
  All-sort_by, All-take, length, take, keep, sort_by, length-sort_by, length-take-le, max, min,
  elem, [], ◌∷◌,
}
use Prim.Native.Nat.{zero, suc}
use agentic_harness.Rows.{Task}
use agentic_harness.Policy.{default_document, evaluate_dispatch}
use agentic_harness.Contracts.{dependencies_satisfied}
use agentic_harness.Scheduler.{
  Locale, is_ready, select_ready, state_map, by_id, dispatch_input, active_statuses,
}

length-take {ℓ} : {A : Type ℓ} (n : ℕ) (xs : List A) → length (take n xs) ≡ min n (length xs)
length-take zero xs = omega arith
length-take (suc n) [] = omega arith
length-take (suc n) (x ∷ xs) = omega (arith, length-take n xs)

abbrev pub count_active : List Task → ℕ
count_active tasks = length (keep (λ t. elem t.status active_statuses) tasks)

module _ (locale : Locale) (tasks : List Task) (max_parallel now : ℕ) where
  -- The selection never brings the active tasks above the limit (or above their number, where they
  -- are over it already), and it leaves no free place while a ready task is left: the number of
  -- selected tasks is the smaller one of the free places and of the tasks that are ready.
  pub select_ready-fills-capacity :
      let s = select_ready locale tasks max_parallel now in
      (s.active ≡ count_active tasks)
      × (length s.ready + s.active ≤ max max_parallel s.active)
      × (length s.ready
          ≡ min
              (max_parallel - count_active tasks)
              (length (keep (is_ready locale (state_map tasks) now) tasks)))
  unfolding select_ready
  select_ready-fills-capacity =
      let ready = keep (is_ready locale (state_map tasks) now) tasks in
      let sorted = sort_by (by_id locale) ready in
      let free = max_parallel - count_active tasks in
      (
        omega arith,
        omega (arith, length-take-le free sorted),
        length-take free sorted ∙ ap (min free) (length-sort_by (by_id locale) ready),
      )

  -- Every task that is selected passes the test on the states of the given tasks.
  pub select_ready-IsReady :
      All
        (λ t. is_ready locale (state_map tasks) now t ≡ true)
        (select_ready locale tasks max_parallel now).ready
  unfolding select_ready
  select_ready-IsReady =
      All-take _ _ _
        (All-sort_by _ (by_id locale) _ (All-keep (is_ready locale (state_map tasks) now) tasks))

  abbrev pub MayDispatch : String → Task → Type 0
  MayDispatch run_status t =
      (dependencies_satisfied t (state_map tasks) ≡ true)
      × ((evaluate_dispatch default_document.dispatch
            (dispatch_input locale run_status now true t)).allowed
          ≡ true)

  ready-dispatched :
      (run_status : String) (t : Task)
      → elem run_status default_document.dispatch.terminal_run_statuses ≡ false
      → is_ready locale (state_map tasks) now t ≡ true
      → MayDispatch run_status t
  unfolding evaluate_dispatch is_ready dispatch_input
  ready-dispatched run_status t live ready = (ground arith, ground arith)

  -- Every task that the scheduler selects has its dependencies satisfied, as the input of the policy
  -- claims; and while the run has not ended and the topology is refined, the default policy allows
  -- its dispatch.
  pub select_ready-dispatched :
      (run_status : String)
      → elem run_status default_document.dispatch.terminal_run_statuses ≡ false
      → All (MayDispatch run_status) (select_ready locale tasks max_parallel now).ready
  select_ready-dispatched run_status live =
      All-imp _ _ _ (λ t. ready-dispatched run_status t live) select_ready-IsReady
