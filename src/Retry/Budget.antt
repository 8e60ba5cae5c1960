-- ===== src/Retry/Budget.antt =====
-- The budget of a task's retries over its history.
use agentic_harness.Base.{
  ℕ, ◌+◌, ◌≤◌, ◌<◌, String, ◌≡◌, ◌≢◌, ◌↔◌, true, Option, some, List, [], ◌∷◌, ◌++◌, arith,
  is_truthy, Bool-cases, inl, inr, eq_iff, opt_eq,
}
use agentic_harness.RunInvariants.Guard.{eq_of_opt_eq}
use agentic_harness.Retry.{
  BudgetEvent, BudgetState, Limits, cumulative_backoff, derive_budget_state, evaluate_budget,
}

-- A retry is allowed exactly when the time since the start is below its limit and the delay fits
-- both into the time that is left and into the backoff that is left.
pub evaluate_budget_iff :
    (b : BudgetState) (delay : ℕ) (l : Limits)
    → ((evaluate_budget b delay l).allowed ≡ true) ↔ (
        (b.elapsed_ms < l.max_elapsed_ms)
        × (b.elapsed_ms + delay ≤ l.max_elapsed_ms)
        × (b.cumulative_backoff_ms + delay ≤ l.max_cumulative_backoff_ms))
unfolding evaluate_budget
evaluate_budget_iff b delay l = (λ h. ground arith, λ h. ground arith)

backoff-append :
    (task : Option String) (xs ys : List BudgetEvent)
    → cumulative_backoff task (xs ++ ys) ≡ cumulative_backoff task xs + cumulative_backoff task ys
unfolding cumulative_backoff
backoff-append task [] ys = omega arith
backoff-append task (x ∷ xs) ys = omega (arith, backoff-append task xs ys)

abbrev pub backoff_event : String → ℕ → ℕ → BudgetEvent
backoff_event task_id at delay = record {
  task_id = some task_id;
  created = some at;
  event_type = "retry.backoff_applied";
  retry_after_ms = delay;
}

-- A history of a run in which each backoff of the task was allowed by the budget at its time, and
-- events of any kind stand between.
pub data Paced (task_id : String) (started : Option ℕ) (l : Limits)
    : List BudgetEvent → Type 0 where
  fresh : {es : List BudgetEvent} → es ≡ [] → Paced task_id started l es
  backoff :
      {es fs : List BudgetEvent} (now at delay : ℕ)
      → Paced task_id started l es
      → (evaluate_budget (derive_budget_state es (some task_id) started now) delay l).allowed ≡ true
      → fs ≡ es ++ backoff_event task_id at delay ∷ []
      → Paced task_id started l fs
  other :
      {es fs : List BudgetEvent} (e : BudgetEvent)
      → Paced task_id started l es
      → (e.event_type ≢ "retry.backoff_applied")
      → fs ≡ es ++ e ∷ []
      → Paced task_id started l fs
  sibling :
      {es fs : List BudgetEvent} (e : BudgetEvent)
      → Paced task_id started l es
      → e.task_id ≢ some task_id
      → fs ≡ es ++ e ∷ []
      → Paced task_id started l fs

module _ (task_id : String) where
  snoc :
      (es : List BudgetEvent) (e : BudgetEvent)
      → cumulative_backoff (some task_id) (es ++ e ∷ [])
        ≡ cumulative_backoff (some task_id) es + cumulative_backoff (some task_id) (e ∷ [])
  snoc es e = backoff-append (some task_id) es (e ∷ [])

  backoff_one :
      (at delay : ℕ)
      → cumulative_backoff (some task_id) (backoff_event task_id at delay ∷ []) ≤ delay
  unfolding cumulative_backoff
  backoff_one at delay = ground arith

  other_one :
      (e : BudgetEvent)
      → e.event_type ≢ "retry.backoff_applied"
      → cumulative_backoff (some task_id) (e ∷ []) ≡ 0
  unfolding cumulative_backoff
  other_one e h = ground (arith, eq_iff e.event_type "retry.backoff_applied")

  sibling_one :
      (e : BudgetEvent)
      → is_truthy task_id ≡ true
      → e.task_id ≢ some task_id
      → cumulative_backoff (some task_id) (e ∷ []) ≡ 0
  unfolding cumulative_backoff
  sibling_one e set h = elim (Bool-cases (opt_eq e.task_id (some task_id))) [
    | inl same ↦ absurd (h (eq_of_opt_eq e.task_id (some task_id) same))
    | inr apart ↦ ground arith
  ]

backoff_fits :
    (task_id : String) (started : Option ℕ) (l : Limits) (es : List BudgetEvent) (now delay : ℕ)
    → (evaluate_budget (derive_budget_state es (some task_id) started now) delay l).allowed ≡ true
    → cumulative_backoff (some task_id) es + delay ≤ l.max_cumulative_backoff_ms
unfolding derive_budget_state
backoff_fits task_id started l es now delay h =
    ((evaluate_budget_iff (derive_budget_state es (some task_id) started now) delay l).0 h).2

-- Along a history in which the budget allowed each backoff of a task, the backoff that counts for
-- the task never passes its limit, whatever other events and sibling tasks add.
pub backoff_stays_in_budget :
    (task_id : String) (started : Option ℕ) (l : Limits) (es : List BudgetEvent)
    → is_truthy task_id ≡ true
    → Paced task_id started l es
    → cumulative_backoff (some task_id) es ≤ l.max_cumulative_backoff_ms
backoff_stays_in_budget task_id started l es set (fresh e) =
    rw e (unfold cumulative_backoff in omega arith)
backoff_stays_in_budget task_id started l fs set (backoff {es} now at delay p allowed e) =
    rw (e, snoc task_id es _)
      (omega
        (arith, backoff_one task_id at delay, backoff_fits task_id started l es now delay allowed))
backoff_stays_in_budget task_id started l fs set (other {es} x p kind e) =
    rw (e, snoc task_id es x)
      (omega (arith, other_one task_id x kind, backoff_stays_in_budget task_id started l es set p))
backoff_stays_in_budget task_id started l fs set (sibling {es} x p apart e) =
    rw (e, snoc task_id es x)
      (omega (
        arith,
        sibling_one task_id x set apart,
        backoff_stays_in_budget task_id started l es set p,
      ))
