-- ===== src/Compiler/Dependencies.antt =====
-- The dependencies between the tasks that a plan is compiled to.
use agentic_harness.Base.{
  String, ◌≡◌, refl, sym, subst, ap, Bool, true, false, not, ◌&&◌, List, [], ◌∷◌, map, elem, unique,
  unique_from, length, All, arith, eq_iff, eq_refl, ◌==◌, ◌=ₛ◌, if◌then◌else◌, Bool-cases,
  Option-cases, inl, inr,
}
use agentic_harness.Compiler.{Criterion, WorkItem, Agent, registry_agent, template}
use agentic_harness.Compiler.Ownership.{implementation_roles}
use agentic_harness.Compiler.Tasks.{
  CompiledTask, Outcome, returned, refused, implementation_id, implementation_task, with_task,
  implementation_tasks, task_dependencies, assigned_criteria, built_task,
}

elem-unique_from :
    (x : String) (seen xs : List String)
    → elem x (unique_from seen xs) ≡ (not (elem x seen) && elem x xs)
unfolding unique_from
elem-unique_from x seen [] = ground arith
elem-unique_from x seen (y ∷ ys) = elim (Bool-cases (x =ₛ y)) [
  | inl same ↦
      rw ((eq_iff x y).0 same)
        (ground (arith, elem-unique_from y seen ys, elem-unique_from y (y ∷ seen) ys, eq_refl y))
  | inr other ↦ ground (arith, other, elem-unique_from x seen ys, elem-unique_from x (y ∷ seen) ys)
]

-- A set has the elements of its list.
pub elem-unique : (x : String) (xs : List String) → elem x (unique xs) ≡ elem x xs
unfolding unique
elem-unique x xs = elem-unique_from x [] xs

abbrev pub task_ids : List CompiledTask → List String
task_ids tasks = map (λ (t : CompiledTask). t.task_id) tasks

-- All tasks of a list stand among some identifiers.
pub among_tasks :
    (tasks : List CompiledTask) (ids : List String)
    → ((x : String) → elem x (task_ids tasks) ≡ true → elem x ids ≡ true)
    → All (λ (t : CompiledTask). elem t.task_id ids ≡ true) tasks
among_tasks [] ids h = tt
among_tasks (t ∷ tasks) ids h = (
  h t.task_id (ground (arith, eq_refl t.task_id)),
  among_tasks tasks ids (λ x there. h x (ground (arith, there))),
)

-- What the compilation of items gives: a task for each, in order.
abbrev pub AreTasksOf : String → String → List WorkItem → List CompiledTask → Type 0
AreTasksOf run_id lead [] [] = Unit
AreTasksOf run_id lead (item ∷ items) (t ∷ tasks) =
    (t.task_id ≡ implementation_id run_id item.id)
    × (t.dependencies ≡ task_dependencies run_id lead item)
    × AreTasksOf run_id lead items tasks
AreTasksOf run_id lead _ _ = ⊥

pub returned-injective : {A : Type 0} (a b : A) → returned a ≡ returned b → a ≡ b
returned-injective a b h = cc h

pub past_refusal :
    {A : Type 0} (b : Bool) (e : String) (x : Outcome A) (a : A)
    → (if b then refused e else x) ≡ returned a
    → (b ≡ false) × (x ≡ returned a)
past_refusal true e x a h = absurd (cc h)
past_refusal false e x a h = (refl, h)

both_returned :
    (x : Outcome CompiledTask) (rest : Outcome (List CompiledTask)) (tasks : List CompiledTask)
    → with_task x rest ≡ returned tasks
    → (t : CompiledTask) × (ts : List CompiledTask) × (x ≡ returned t)
      × (rest ≡ returned ts)
      × (t ∷ ts ≡ tasks)
both_returned (refused e) rest tasks h = absurd (cc h)
both_returned (returned t) (refused e) tasks h = absurd (cc h)
both_returned (returned t) (returned ts) tasks h =
    (t, ts, refl, refl, returned-injective (t ∷ ts) tasks h)

module _ (run_id lead : String) (agents : List Agent) (criteria : List Criterion)
    (ids : List String) where
  task_of_item :
      (item : WorkItem) (t : CompiledTask)
      → implementation_task run_id lead agents criteria ids item ≡ returned t
      → (t.task_id ≡ implementation_id run_id item.id)
        × (t.dependencies ≡ task_dependencies run_id lead item)
  unfolding implementation_task
  task_of_item item t h = elim (Option-cases (registry_agent agents item.owner_agent_id)) [
    | inl unknown ↦ absurd (cc (rw (unknown, implementation_task) at h))
    | inr (a, found) ↦
        let assigned = assigned_criteria criteria ids item.acceptance_criteria in
        let (_, h₁) =
          past_refusal (not (elem a.execution_role implementation_roles))
            (template ("implementation_plan_agent_not_implementer:" ∷ item.owner_agent_id ∷ []))
            (if length assigned == 0
              then refused (
                  template (
                    "implementation_plan_work_item_without_implementation_criterion:" ∷ item.id
                    ∷ []))
              else returned (built_task run_id lead item assigned a))
            t (rw (found, implementation_task) at h) in
        let (_, h₂) =
          past_refusal (length assigned == 0)
            (template
              ("implementation_plan_work_item_without_implementation_criterion:" ∷ item.id ∷ []))
            (returned (built_task run_id lead item assigned a)) t h₁ in
        let same = returned-injective (built_task run_id lead item assigned a) t h₂ in
        (
          sym (ap (λ (x : CompiledTask). x.task_id) same),
          sym (ap (λ (x : CompiledTask). x.dependencies) same),
        )
  ]

  pub tasks_of_items :
      (items : List WorkItem) (tasks : List CompiledTask)
      → implementation_tasks run_id lead agents criteria ids items ≡ returned tasks
      → AreTasksOf run_id lead items tasks
  unfolding implementation_tasks
  tasks_of_items [] tasks h = subst (AreTasksOf run_id lead []) (returned-injective [] tasks h) tt
  tasks_of_items (item ∷ items) tasks h =
      let (t, ts, e₁, e₂, same) =
        both_returned (implementation_task run_id lead agents criteria ids item)
          (implementation_tasks run_id lead agents criteria ids items) tasks h in
      let (id, dependencies) = task_of_item item t e₁ in
      subst (AreTasksOf run_id lead (item ∷ items)) same
        (id, dependencies, tasks_of_items items ts e₂)
