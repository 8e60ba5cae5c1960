-- ===== src/Compiler/Passed.antt =====
-- .agents/runtime/dag-compiler.mjs: each check of `inspectImplementationPlan` on a plan without issues.
use agentic_harness.Base.{String, ◌≡◌, Bool, false, some, List, [], ◌∷◌, ◌++◌, elem, unique}
use agentic_harness.Compiler.{Criterion, WorkItem, ImplementationPlan, Agent, Tools, registry_agent}
use agentic_harness.Compiler.Criteria.{implementation_criteria}
use agentic_harness.Compiler.Ordered.{collect_cycle_issues_iff}
use agentic_harness.Compiler.Cycles.{collect_cycle_issues}
use agentic_harness.Compiler.Checks.{
  Options, Claims, raise_if, duplicates, invalid_commands, projected, scope_issues, owner_issues,
  path_issues,
}
use agentic_harness.Compiler.Inspection.{
  reuse_issues, criteria_issues, Progress, inspect_item, inspect_items, criterion_ids,
  unknown_dependencies, uncovered, focused_missing, zero_coverage, focused_commands, Inspection,
  inspect,
}
use agentic_harness.Compiler.Coverage.{append-nil_both, raise_if-nil}
use agentic_harness.Compiler.Fit.{unique-nil}

module _ (tools : Tools) (o : Options) (criteria : List Criterion) (agents : List Agent)
    (focused : List String) where
  -- None of the checks of a work item has an issue, given the claims of the items before it.
  pub record IsPassedItem (known : Bool) (c : Claims tools) (item : WorkItem) : Type 0 where
    pub fresh : known ≡ false
    pub commands : invalid_commands tools item ≡ []
    pub projection : projected tools item ≡ []
    pub scope : scope_issues tools focused item ≡ []
    pub owner : owner_issues tools item (registry_agent agents item.owner_agent_id) ≡ []
    pub paths : (path_issues tools agents item item.owned_paths c).0 ≡ []
    pub reuse : reuse_issues tools o criteria item ≡ []
    pub assigned : criteria_issues tools o criteria item ≡ []

  abbrev pub PassedFrom : List String → Claims tools → List WorkItem → Type 0
  PassedFrom seen c [] = Unit
  PassedFrom seen c (item ∷ items) =
      IsPassedItem (elem item.id seen) c item
      × PassedFrom (item.id ∷ seen) (path_issues tools agents item item.owned_paths c).1 items

  inspect_item-IsPassedItem :
      (known : Bool) (item : WorkItem) (p : Progress tools o criteria)
      → (inspect_item tools o criteria agents focused known item p).issues ≡ []
      → (p.issues ≡ []) × IsPassedItem known p.claims item
  unfolding inspect_item
  inspect_item-IsPassedItem known item p h =
      let (before, r₁) = append-nil_both p.issues _ h in
      let (fresh, r₂) = append-nil_both (raise_if known _) _ r₁ in
      let (commands, r₃) = append-nil_both (invalid_commands tools item) _ r₂ in
      let (projection, r₄) = append-nil_both (projected tools item) _ r₃ in
      let (scope, r₅) = append-nil_both (scope_issues tools focused item) _ r₄ in
      let (owner, r₆) =
        append-nil_both (owner_issues tools item (registry_agent agents item.owner_agent_id)) _
          r₅ in
      let (paths, r₇) =
        append-nil_both (path_issues tools agents item item.owned_paths p.claims).0 _ r₆ in
      let (reuse, assigned) = append-nil_both (reuse_issues tools o criteria item) _ r₇ in
      (
        before,
        record {
          fresh = raise_if-nil known _ fresh;
          commands = commands;
          projection = projection;
          scope = scope;
          owner = owner;
          paths = paths;
          reuse = reuse;
          assigned = assigned;
        },
      )

  inspect_items-PassedFrom :
      (seen : List String) (items : List WorkItem) (p : Progress tools o criteria)
      → (inspect_items tools o criteria agents focused seen items p).issues ≡ []
      → (p.issues ≡ []) × PassedFrom seen p.claims items
  unfolding inspect_items inspect_item
  inspect_items-PassedFrom seen [] p h = (h, tt)
  inspect_items-PassedFrom seen (item ∷ items) p h =
      let next = inspect_item tools o criteria agents focused (elem item.id seen) item p in
      let (here, later) = inspect_items-PassedFrom (item.id ∷ seen) items next h in
      let (before, passed) = inspect_item-IsPassedItem (elem item.id seen) item p here in
      (before, (passed, later))

-- Every check of the inspection is without an issue.
pub record IsPassed (tools : Tools) (agents : List Agent) (o : Options) (plan : ImplementationPlan)
    : Type 0 where
  pub once :
      duplicates []
        (criterion_ids plan.acceptance_criteria)
        "implementation_plan_duplicate_acceptance_criterion:"
      ≡ []
  pub items :
      PassedFrom tools o plan.acceptance_criteria agents
        (focused_commands tools o)
        []
        (record { claimed = []; owners = [] })
        plan.work_items
  pub known : unknown_dependencies plan.work_items ≡ []
  pub acyclic : collect_cycle_issues plan.work_items ≡ some []
  pub focused : focused_missing tools (focused_commands tools o) plan.work_items ≡ []

pub inspect-IsPassed :
    (tools : Tools) (agents : List Agent) (o : Options) (plan : ImplementationPlan)
    (x : Inspection tools)
    → inspect tools agents o plan ≡ some x
    → x.issues ≡ []
    → IsPassed tools agents o plan
unfolding inspect
inspect-IsPassed tools agents o plan x found clean =
    let criteria = plan.acceptance_criteria in
    let items = plan.work_items in
    let proven = implementation_criteria tools criteria in
    let focused = focused_commands tools o in
    let start : Progress tools o criteria = record {
      issues =
          duplicates [] (criterion_ids criteria)
            "implementation_plan_duplicate_acceptance_criterion:";
      claims = record { claimed = []; owners = [] };
      coverage = zero_coverage tools proven;
    } in
    let p = inspect_items tools o criteria agents focused [] items start in
    let (cycles, e, iff) = collect_cycle_issues_iff items in
    let before = p.issues ++ unknown_dependencies items in
    let after = uncovered proven p.coverage ++ focused_missing tools focused items in
    let made : some (record { issues = unique (before ++ (cycles ++ after)); claims = p.claims })
        ≡ some x =
      rw e at found in
    let same : unique (before ++ (cycles ++ after)) ≡ [] = cc (made, clean) in
    let (first, r₁) = append-nil_both before (cycles ++ after) (unique-nil _ same) in
    let (acyclic, r₂) = append-nil_both cycles after r₁ in
    let (_, missing) =
      append-nil_both (uncovered proven p.coverage) (focused_missing tools focused items) r₂ in
    let (raised, unknown) = append-nil_both p.issues (unknown_dependencies items) first in
    let (once, passed) =
      inspect_items-PassedFrom tools o criteria agents focused [] items start raised in
    record {
      once = once;
      items = passed;
      known = unknown;
      acyclic = rw acyclic at e;
      focused = missing;
    }
