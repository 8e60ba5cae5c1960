-- ===== src/Compiler/Acyclic.antt =====
-- The implementation tasks of a compiled plan have no cycle.
use mathlib.Core.List.{Memᴰ}
use mathlib.Core.List.Memᴰ
use agentic_harness.Base.{
  ℕ, ◌<◌, String, ◌≡◌, ◌≢◌, refl, sym, subst, ap, ◌∙◌, true, false, none, some, List, [], ◌∷◌, map,
  elem, find, All, arith, eq_iff, eq_refl, ◌=ₛ◌, if◌then◌else◌, Bool-cases, inl, inr,
}
use agentic_harness.Compiler.{Criterion, WorkItem, ImplementationPlan, Agent, Tools}
use agentic_harness.Compiler.Criteria.{canonicalize}
use agentic_harness.Compiler.Checks.{Options}
use agentic_harness.Compiler.Cycles.{item_of}
use agentic_harness.Compiler.Ordered.{listed-Known}
use agentic_harness.Compiler.Inspection.{work_ids}
use agentic_harness.Compiler.Coverage.{AllFit}
use agentic_harness.Compiler.Fit.{IsPlanFit}
use agentic_harness.Compiler.Tasks.{CompiledTask, returned, implementation_id, task_dependencies}
use agentic_harness.Compiler.Compile.{BootstrapPlan, Compiled, Surroundings, compile_dag}
use agentic_harness.Compiler.Dependencies.{elem-unique, AreTasksOf}
use agentic_harness.Compiler.Staging.{compile_plan-IsCompiled}

All-at : {A : Type 0} (P : A → Type 0) (xs : List A) (x : A) → All P xs → Memᴰ x xs → P x
All-at P [] x h m = absurd (Memᴰ.not-nil m)
All-at P (y ∷ ys) x h m = elim (Memᴰ.cases_cons m) [
  | inl same ↦ subst P (sym same) h.0
  | inr later ↦ All-at P ys x h.1 later
]

-- The item that a task was compiled from.
item_of_task :
    (run_id lead : String) (items : List WorkItem) (tasks : List CompiledTask) (t : CompiledTask)
    → AreTasksOf run_id lead items tasks
    → Memᴰ t tasks
    → (i : WorkItem) × Memᴰ i items
      × (t.task_id ≡ implementation_id run_id i.id)
      × (t.dependencies ≡ task_dependencies run_id lead i)
item_of_task run_id lead [] [] t are m = absurd (Memᴰ.not-nil m)
item_of_task run_id lead [] (u ∷ tasks) t are m = absurd are
item_of_task run_id lead (i ∷ items) [] t are m = absurd are
item_of_task run_id lead (i ∷ items) (u ∷ tasks) t (id, dependencies, later) m =
    elim (Memᴰ.cases_cons m) [
      | inl same ↦ (
        i,
        Memᴰ.head refl,
        ap (λ (x : CompiledTask). x.task_id) same ∙ id,
        ap (λ (x : CompiledTask). x.dependencies) same ∙ dependencies,
      )
      | inr there ↦
          let (j, n, e, d) = item_of_task run_id lead items tasks t later there in
          (j, Memᴰ.tail n, e, d)
    ]

named : (items : List WorkItem) (i : WorkItem) → Memᴰ i items → elem i.id (work_ids items) ≡ true
named [] i m = absurd (Memᴰ.not-nil m)
named (j ∷ items) i m = elim (Memᴰ.cases_cons m) [
  | inl same ↦ rw same (ground (arith, eq_refl j.id))
  | inr later ↦ ground (arith, named items i later)
]

elem-map :
    (f : String → String) (y : String) (xs : List String)
    → elem y (map f xs) ≡ true
    → (x : String) × (elem x xs ≡ true) × (f x ≡ y)
elem-map f y [] h = absurd (cc h)
elem-map f y (x ∷ xs) h = elim (Bool-cases (y =ₛ f x)) [
  | inl same ↦ (x, ground (arith, eq_refl x), sym ((eq_iff y (f x)).0 same))
  | inr other ↦ let (z, m, e) = elem-map f y xs (rw other at h) in (z, ground (arith, m), e)
]

module _ (tools : Tools) (agents : List Agent) (o : Options) (criteria : List Criterion) where
  not_seen :
      (seen : List String) (claimed : List (String × String)) (items : List WorkItem) (i : WorkItem)
      → AllFit tools agents o criteria seen claimed items
      → Memᴰ i items
      → elem i.id seen ≡ false
  not_seen seen claimed [] i h m = absurd (Memᴰ.not-nil m)
  not_seen seen claimed (j ∷ items) i (fresh, fit, later) m = elim (Memᴰ.cases_cons m) [
    | inl same ↦ rw same fresh
    | inr there ↦ ground (arith, not_seen (j.id ∷ seen) _ items i later there)
  ]

  -- Identifiers do not repeat, so each item is the first one with its identifier.
  own_item :
      (seen : List String) (claimed : List (String × String)) (items : List WorkItem) (i : WorkItem)
      → AllFit tools agents o criteria seen claimed items
      → Memᴰ i items
      → item_of items i.id ≡ some i
  unfolding item_of find
  own_item seen claimed [] i h m = absurd (Memᴰ.not-nil m)
  own_item seen claimed (j ∷ items) i (fresh, fit, later) m = elim (Memᴰ.cases_cons m) [
    | inl same ↦ rw same (ground (arith, eq_refl j.id))
    | inr there ↦
        let other = not_seen (j.id ∷ seen) _ items i later there in
        ground (
          arith,
          own_item (j.id ∷ seen) _ items i later there,
          other,
          eq_iff i.id j.id,
          eq_iff j.id i.id,
        )
  ]

module _ (run_id : String) (rank : String → ℕ) where
  -- The rank of the first item with this task.
  task_rank : List WorkItem → String → ℕ
  task_rank [] id = 0
  task_rank (i ∷ items) id =
      let rest = task_rank items id in
      if implementation_id run_id i.id =ₛ id then rank i.id else rest

  task_rank_lem :
      (items : List WorkItem) (i : WorkItem)
      → ((x y : String)
          → elem x (work_ids items) ≡ true
          → elem y (work_ids items) ≡ true
          → implementation_id run_id x ≡ implementation_id run_id y
          → x ≡ y)
      → Memᴰ i items
      → task_rank items (implementation_id run_id i.id) ≡ rank i.id
  unfolding task_rank
  task_rank_lem [] i apart m = absurd (Memᴰ.not-nil m)
  task_rank_lem (j ∷ items) i apart m =
      elim (Bool-cases (implementation_id run_id j.id =ₛ implementation_id run_id i.id)) [
        | inl same ↦
            let e =
              (eq_iff (implementation_id run_id j.id) (implementation_id run_id i.id)).0 same in
            rw same
              (ap rank (apart j.id i.id (ground (arith, eq_refl j.id)) (named (j ∷ items) i m) e))
        | inr other ↦ elim (Memᴰ.cases_cons m) [
          | inl here ↦ absurd (cc (other, eq_refl (implementation_id run_id j.id), here))
          | inr later ↦ rw other (
              task_rank_lem items i
                (λ x y hx hy. apart x y (ground (arith, hx)) (ground (arith, hy))) later)
        ]
      ]

-- The tasks of two items differ where their identifiers do, and none is the technical lead's.
abbrev pub AreApart : BootstrapPlan → List String → Type 0
AreApart plan ids =
    ((x y : String)
      → elem x ids ≡ true
      → elem y ids ≡ true
      → implementation_id plan.run_id x ≡ implementation_id plan.run_id y
      → x ≡ y)
    × ((x : String)
        → elem x ids ≡ true
        → implementation_id plan.run_id x ≢ plan.technical_lead_task_id)

abbrev pub IsTaskRank : List CompiledTask → (String → ℕ) → Type 0
IsTaskRank tasks rank =
    (t u : CompiledTask)
    → Memᴰ t tasks
    → Memᴰ u tasks
    → elem u.task_id t.dependencies ≡ true
    → rank u.task_id < rank t.task_id

module _ (plan : BootstrapPlan) (tools : Tools) (agents : List Agent) (o : Options)
    (implementation : ImplementationPlan) where
  -- A task depends on another one only where its item depends on the other item.
  item_depends :
      (i j : WorkItem)
      → IsPlanFit tools agents o implementation
      → AreApart plan (work_ids implementation.work_items)
      → Memᴰ i implementation.work_items
      → Memᴰ j implementation.work_items
      → elem
          (implementation_id plan.run_id j.id)
          (task_dependencies plan.run_id plan.technical_lead_task_id i)
        ≡ true
      → elem j.id i.dependencies ≡ true
  unfolding task_dependencies
  item_depends i j fit (apart, not_lead) mi mj h =
      let items = implementation.work_items in
      let id = implementation_id plan.run_id in
      let lead = plan.technical_lead_task_id in
      let listed = sym (elem-unique (id j.id) (lead ∷ map id i.dependencies)) ∙ h in
      elim (Bool-cases (id j.id =ₛ lead)) [
        | inl same ↦ absurd (not_lead j.id (named items j mj) ((eq_iff (id j.id) lead).0 same))
        | inr other ↦
            let (d, there, e) = elem-map id (id j.id) i.dependencies (rw other at listed) in
            let known =
              elem-All d i.dependencies (work_ids items) (All-at _ items i fit.known mi) there in
            subst (λ x. elem x i.dependencies ≡ true) (apart d j.id known (named items j mj) e)
              there
      ]
    where
      elem-All :
          (d : String) (ds all : List String)
          → All (λ x. elem x all ≡ true) ds
          → elem d ds ≡ true
          → elem d all ≡ true
      elem-All d [] all h there = absurd (cc there)
      elem-All d (x ∷ ds) all h there = elim (Bool-cases (d =ₛ x)) [
        | inl same ↦ rw ((eq_iff d x).0 same) h.0
        | inr other ↦ elem-All d ds all h.1 (rw other at there)
      ]

  tasks-IsTaskRank :
      (tasks : List CompiledTask)
      → IsPlanFit tools agents o implementation
      → AreApart plan (work_ids implementation.work_items)
      → AreTasksOf plan.run_id plan.technical_lead_task_id implementation.work_items tasks
      → (rank : String → ℕ) × IsTaskRank tasks rank
  tasks-IsTaskRank tasks fit apart are =
      let items = implementation.work_items in
      let run_id = plan.run_id in
      let rank = fit.ranked.0 in
      (
        task_rank run_id rank items,
        λ t u mt mu depends.
            let (i, mi, ti, di) =
              item_of_task run_id plan.technical_lead_task_id items tasks t are mt in
            let (j, mj, tj, _) =
              item_of_task run_id plan.technical_lead_task_id items tasks u are mu in
            let on_item = item_depends i j fit apart mi mj (rw (tj, di) at depends) in
            let own =
              own_item tools agents o implementation.acceptance_criteria [] [] items i fit.items
                mi in
            let less =
              fit.ranked.1 i.id j.id (rw own on_item)
                (listed-Known items j.id (named items j mj)) in
            omega (
              arith,
              ap (task_rank run_id rank items) ti,
              ap (task_rank run_id rank items) tj,
              task_rank_lem run_id rank items i apart.0 mi,
              task_rank_lem run_id rank items j apart.0 mj,
              less,
            ),
      )

canonicalize-work_items :
    (implementation : ImplementationPlan) (required : List Criterion)
    → (canonicalize implementation required).plan.work_items ≡ implementation.work_items
unfolding canonicalize
canonicalize-work_items implementation [] = refl
canonicalize-work_items implementation (c ∷ cs) = refl

-- The implementation tasks of a compilation that returns can be numbered so that each has a higher
-- number than the implementation tasks it depends on: they have no cycle. This holds where items with
-- different identifiers get tasks with different identifiers, none of which is the technical lead's;
-- the inspection does not check that.
pub compile_dag_acyclic :
    (plan : BootstrapPlan) (env : Surroundings) (agents : List Agent) (required : List Criterion)
    (implementation : ImplementationPlan) (c : Compiled)
    → compile_dag plan env agents required (some implementation) ≡ returned c
    → AreApart plan (work_ids implementation.work_items)
    → (rank : String → ℕ) × IsTaskRank c.implementation rank
unfolding compile_dag
compile_dag_acyclic plan env agents required implementation c h apart =
    let canonical = (canonicalize implementation required).plan in
    let o : Options = record { focused = env.directive plan.request; catalog = none } in
    let (fit, stages, _) = compile_plan-IsCompiled plan env agents canonical c h in
    tasks-IsTaskRank plan env.tools agents o canonical c.implementation fit
      (subst (λ items. AreApart plan (work_ids items))
        (sym (canonicalize-work_items implementation required)) apart)
      stages.work
