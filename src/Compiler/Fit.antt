-- ===== src/Compiler/Fit.antt =====
-- What a plan without issues fulfils: its items, its criteria and its dependencies.
use agentic_harness.Base.{
  ℕ, ◌+◌, String, ◌≡◌, refl, subst, ◌∙◌, Bool, true, false, not, some, List, [], ◌∷◌, ◌++◌, Dict,
  lookup, put, elem, unique, unique_from, any, All, All-imp, arith, eq_iff, Bool-cases, inl, inr,
}
use agentic_harness.Graph.{degree}
use agentic_harness.Graph.Release.{degree-put}
use agentic_harness.Compiler.{Criterion, WorkItem, ImplementationPlan, Agent, Tools, registry_agent}
use agentic_harness.Compiler.Criteria.{implementation_criteria}
use agentic_harness.Compiler.Ordered.{IsRank, collect_cycle_issues_iff}
use agentic_harness.Compiler.Checks.{
  Options, raise_if, each, duplicates, invalid_commands, projected, scope_issues, owner_issues,
  path_issues,
}
use agentic_harness.Compiler.Inspection.{
  is_assigned, reuse_issues, criteria_issues, assigned_issue, cover, Progress, inspect_item,
  inspect_items, criterion_ids, work_ids, unknown_dependencies, uncovered, focused_missing,
  zero_coverage, focused_commands, Inspection, inspect,
}
use agentic_harness.Compiler.Coverage.{
  append-nil_both, raise_if-nil, each-nil, claims_over, path_issues-IsOwned, path_issues-claimed,
  owner_issues-found, IsFit, AllFit, keep-any, executable_from,
}

module _ (tools : Tools) (o : Options) (criteria : List Criterion) (agents : List Agent)
    (focused : List String) where
  inspect_item-IsFit :
      (known : Bool) (item : WorkItem) (p : Progress tools o criteria)
      → (inspect_item tools o criteria agents focused known item p).issues ≡ []
      → (p.issues ≡ []) × (known ≡ false) × IsFit tools agents o criteria p.claims.claimed item
  unfolding inspect_item invalid_commands criteria_issues
  inspect_item-IsFit known item p h =
      let (before, r₁) = append-nil_both p.issues _ h in
      let (fresh, r₂) = append-nil_both (raise_if known _) _ r₁ in
      let (commands, r₃) = append-nil_both (invalid_commands tools item) _ r₂ in
      let (_, r₄) = append-nil_both (projected tools item) _ r₃ in
      let (_, r₅) = append-nil_both (scope_issues tools focused item) _ r₄ in
      let (owners, r₆) =
        append-nil_both (owner_issues tools item (registry_agent agents item.owner_agent_id)) _
          r₅ in
      let (paths, r₇) =
        append-nil_both (path_issues tools agents item item.owned_paths p.claims).0 _ r₆ in
      let (_, r₈) = append-nil_both (reuse_issues tools o criteria item) _ r₇ in
      let (_, unassigned) =
        append-nil_both (each (assigned_issue tools o criteria item) item.acceptance_criteria) _
          r₈ in
      let (a, found, role) =
        owner_issues-found tools agents item (registry_agent agents item.owner_agent_id) owners in
      (
        before,
        raise_if-nil known _ fresh,
        record {
          owner = a;
          registered = found;
          implements = role;
          owned = path_issues-IsOwned tools agents item a item.owned_paths p.claims found paths;
          assigned =
              keep-any tools agents o criteria (is_assigned tools o criteria)
                item.acceptance_criteria (raise_if-nil _ _ unassigned);
          executable = executable_from tools agents o criteria 0 item item.validation commands;
        },
      )

  claimed_after :
      (known : Bool) (item : WorkItem) (p : Progress tools o criteria)
      → (inspect_item tools o criteria agents focused known item p).claims.claimed
        ≡ p.claims.claimed ++ claims_over tools agents item.owner_agent_id item.owned_paths
  unfolding inspect_item
  claimed_after known item p = path_issues-claimed tools agents item item.owned_paths p.claims

  inspect_items-AllFit :
      (seen : List String) (items : List WorkItem) (p : Progress tools o criteria)
      → (inspect_items tools o criteria agents focused seen items p).issues ≡ []
      → (p.issues ≡ []) × AllFit tools agents o criteria seen p.claims.claimed items
  unfolding inspect_items
  inspect_items-AllFit seen [] p h = (h, tt)
  inspect_items-AllFit seen (item ∷ items) p h =
      let next = inspect_item tools o criteria agents focused (elem item.id seen) item p in
      let (here, later) = inspect_items-AllFit (item.id ∷ seen) items next h in
      let (before, fresh, fit) = inspect_item-IsFit (elem item.id seen) item p here in
      (
        before,
        (
          fresh,
          fit,
          subst (λ c. AllFit tools agents o criteria (item.id ∷ seen) c items)
              (claimed_after (elem item.id seen) item p) later,
        ),
      )

  -- The coverage of a criterion that no item names stays as it is.
  cover-unnamed :
      (id : String) (ids : List String) (coverage : Dict ℕ)
      → elem id ids ≡ false
      → degree (cover tools o criteria ids coverage) id ≡ degree coverage id
  unfolding cover
  cover-unnamed id [] coverage h = refl
  cover-unnamed id (x ∷ ids) coverage h =
      let here = cover-unnamed id ids coverage (ground arith) in
      let counted = cover-unnamed id ids (put x (degree coverage x + 1) coverage) (ground arith) in
      ground (
        arith,
        here,
        counted,
        degree-put x id (degree coverage x + 1) coverage,
        eq_iff id x,
        eq_iff x id,
      )

  inspect_items-coverage :
      (id : String) (seen : List String) (items : List WorkItem) (p : Progress tools o criteria)
      → any (λ (i : WorkItem). elem id i.acceptance_criteria) items ≡ false
      → degree (inspect_items tools o criteria agents focused seen items p).coverage id
        ≡ degree p.coverage id
  unfolding inspect_items inspect_item any
  inspect_items-coverage id seen [] p h = refl
  inspect_items-coverage id seen (item ∷ items) p h =
      inspect_items-coverage id (item.id ∷ seen) items
        (inspect_item tools o criteria agents focused (elem item.id seen) item p) (ground arith)
      ∙ cover-unnamed id item.acceptance_criteria p.coverage (ground arith)

pub unique-nil : (xs : List String) → unique xs ≡ [] → xs ≡ []
unfolding unique unique_from
unique-nil [] h = refl
unique-nil (x ∷ xs) h = absurd (cc h)

degree-zero_coverage :
    (tools : Tools) (cs : List Criterion) (id : String) → degree (zero_coverage tools cs) id ≡ 0
unfolding lookup
degree-zero_coverage tools [] id = refl
degree-zero_coverage tools (c ∷ cs) id = ground (arith, degree-zero_coverage tools cs id)

covered_of :
    (items : List WorkItem) (cs : List Criterion) (coverage : Dict ℕ)
    → ((id : String)
        → any (λ (i : WorkItem). elem id i.acceptance_criteria) items ≡ false
        → degree coverage id ≡ 0)
    → uncovered cs coverage ≡ []
    → All
        (λ (c : Criterion).
          c.blocking ≡ true → any (λ (i : WorkItem). elem c.id i.acceptance_criteria) items ≡ true)
        cs
covered_of items [] coverage unnamed h = tt
covered_of items (c ∷ cs) coverage unnamed h =
    let (here, later) = append-nil_both _ (uncovered cs coverage) h in
    let some_count = raise_if-nil _ _ here in
    (
      λ blocking.
          elim (Bool-cases (any (λ (i : WorkItem). elem c.id i.acceptance_criteria) items)) [
            | inl named ↦ named
            | inr unnamed_here ↦ absurd (ground (arith, unnamed c.id unnamed_here))
          ],
      covered_of items cs coverage unnamed later,
    )

known_dependencies :
    (all ds : List String) (id : String)
    → each
        (λ d.
          raise_if
            (not (elem d all))
            ("implementation_plan_dependency_unknown:" ∷ id ∷ ":" ∷ d ∷ []))
        ds
      ≡ []
    → All (λ d. elem d all ≡ true) ds
known_dependencies all [] id h = tt
known_dependencies all (d ∷ ds) id h =
    let (here, later) = append-nil_both (raise_if (not (elem d all)) _) _ h in
    let there = raise_if-nil _ _ here in (ground arith, known_dependencies all ds id later)

-- What a plan without issues fulfils.
pub record IsPlanFit (tools : Tools) (agents : List Agent) (o : Options) (plan : ImplementationPlan)
    : Type 0 where
  pub items : AllFit tools agents o plan.acceptance_criteria [] [] plan.work_items
  pub known :
      All
        (λ (i : WorkItem). All (λ d. elem d (work_ids plan.work_items) ≡ true) i.dependencies)
        plan.work_items
  pub ranked : (rank : String → ℕ) × IsRank plan.work_items rank
  pub covered :
      All
        (λ (c : Criterion).
          c.blocking ≡ true
          → any (λ (i : WorkItem). elem c.id i.acceptance_criteria) plan.work_items ≡ true)
        (implementation_criteria tools plan.acceptance_criteria)

-- The inspection always gives a result. Where it raises no issue, the identifiers of the work items
-- do not repeat, each item has an implementer as its owner that may own each of its paths, none of
-- which overlaps with a path of an earlier item of another owner, its commands are executable, and it
-- proves a criterion of the implementation; all dependencies are on items of the plan, and the items
-- can be numbered so that each has a higher number than those it depends on; and each blocking
-- criterion of the implementation is named by an item.
pub inspect-IsPlanFit :
    (tools : Tools) (agents : List Agent) (o : Options) (plan : ImplementationPlan)
    → (x : Inspection tools) × (inspect tools agents o plan ≡ some x)
      × (x.issues ≡ [] → IsPlanFit tools agents o plan)
unfolding inspect
inspect-IsPlanFit tools agents o plan =
    let criteria = plan.acceptance_criteria in
    let items = plan.work_items in
    let proven = implementation_criteria tools criteria in
    let focused = focused_commands tools o in
    let start : Progress tools o criteria = record {
      issues =
          duplicates [] (criterion_ids criteria)
            "implementation_plan_duplicate_acceptance_criterion:";
      claims = record { claimed = []; owners = [] };
      coverage = zero_coverage tools proven;
    } in
    let p = inspect_items tools o criteria agents focused [] items start in
    let (cycles, e, iff) = collect_cycle_issues_iff items in
    let before = p.issues ++ unknown_dependencies items in
    let after = uncovered proven p.coverage ++ focused_missing tools focused items in
    (
      record { issues = unique (before ++ (cycles ++ after)); claims = p.claims },
      rw e refl,
      λ h.
          let (first, r₁) = append-nil_both before (cycles ++ after) (unique-nil _ h) in
          let (acyclic, r₂) = append-nil_both cycles after r₁ in
          let (covers, _) =
            append-nil_both (uncovered proven p.coverage) (focused_missing tools focused items)
              r₂ in
          let (raised, unknown) = append-nil_both p.issues (unknown_dependencies items) first in
          record {
            items = (inspect_items-AllFit tools o criteria agents focused [] items start raised).1;
            known =
                All-imp _ _ items
                  (λ i none_unknown.
                    known_dependencies (work_ids items) i.dependencies i.id none_unknown)
                  (each-nil _ items unknown);
            ranked = iff.0 acyclic;
            covered =
                covered_of items proven p.coverage
                  (λ id unnamed.
                    inspect_items-coverage tools o criteria agents focused id [] items start unnamed
                    ∙ degree-zero_coverage tools proven id)
                  covers;
          },
    )
