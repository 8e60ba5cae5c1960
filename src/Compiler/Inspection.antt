-- ===== src/Compiler/Inspection.antt =====
-- .agents/runtime/dag-compiler.mjs: `inspectImplementationPlan`, the issues of a plan.
use agentic_harness.Base.{
  ℕ, ◌+◌, String, Bool, not, ◌&&◌, ◌||◌, Option, none, some, List, [], ◌∷◌, ◌++◌, map, Dict, put,
  elem, keep, any, length, is_some, or_else, ◌==◌, ◌=ₛ◌, trim, unique, if◌then◌else◌,
}
use agentic_harness.Graph.{degree}
use agentic_harness.Compiler.{
  Criterion, WorkItem, ImplementationPlan, Agent, Tools, registry_agent, template,
}
use agentic_harness.Compiler.Criteria.{implementation_criteria}
use agentic_harness.Compiler.Cycles.{collect_cycle_issues}
use agentic_harness.Compiler.Checks.{
  Options, Claims, raise_if, each, duplicates, criterion_of, invalid_commands, projected,
  scope_issues, owner_issues, path_issues, is_command,
}

-- The identifiers of the criteria that an implementation proves.
abbrev pub criterion_ids : List Criterion → List String
criterion_ids criteria = map (λ (c : Criterion). c.id) criteria

module _ (tools : Tools) (o : Options) (criteria : List Criterion) where
  -- `implementationCriterionIds`
  abbrev pub implementation_ids : List String
  implementation_ids = criterion_ids (implementation_criteria tools criteria)

  abbrev pub verification_of : String → String
  verification_of id = elim (criterion_of criteria id) [ none ↦ "" | some c ↦ trim c.verification ]

  -- A work item that is reused: the issue of one of its criteria.
  abbrev pub reuse_criterion : WorkItem → String → List String
  reuse_criterion item id =
      let verification = verification_of id in
      if not (is_some (criterion_of criteria id)) || not (elem id implementation_ids)
      then []
      else if not (is_command tools o verification)
      then template (
          "implementation_plan_deterministic_reuse_non_executable_criterion:" ∷ item.id ∷ ":" ∷ id
          ∷ [])
        ∷ []
      else raise_if (not (elem verification item.validation)) (
          "implementation_plan_deterministic_reuse_criterion_validation_missing:"
          ∷ item.id
          ∷ ":"
          ∷ id
          ∷ ":"
          ∷ tools.quote verification
          ∷ [])

  unfoldable pub reuse_issues : WorkItem → List String
  unfolding trim
  reuse_issues item =
      if not (or_else item.execution_mode "agent" =ₛ "deterministic-reuse")
      then []
      else raise_if item.contract_change
          ("implementation_plan_deterministic_reuse_contract_change:" ∷ item.id ∷ [])
        ++ (raise_if item.migration
              ("implementation_plan_deterministic_reuse_migration:" ∷ item.id ∷ [])
            ++ (raise_if (not (or_else item.execution_scope "workspace" =ₛ "workspace"))
                  ("implementation_plan_deterministic_reuse_scope:" ∷ item.id ∷ [])
                ++ (raise_if (length item.validation == 0)
                      ("implementation_plan_deterministic_reuse_validation_missing:" ∷ item.id ∷ [])
                    ++ (each
                          (λ path. raise_if (tools.is_glob path) (
                            "implementation_plan_deterministic_reuse_exact_path_required:" ∷ item.id
                            ∷ ":" ∷ path ∷ []))
                          item.owned_paths
                        ++ each (reuse_criterion item) item.acceptance_criteria))))

  -- The issues of one criterion that the item names.
  abbrev pub assigned_issue : WorkItem → String → List String
  assigned_issue item id =
      let verification = verification_of id in
      if not (is_some (criterion_of criteria id))
      then template ("implementation_plan_unknown_criterion:" ∷ item.id ∷ ":" ∷ id ∷ []) ∷ []
      else if not (elem id implementation_ids)
      then []
      else raise_if (is_command tools o verification && not (elem verification item.validation)) (
          "implementation_plan_criterion_verification_missing:"
          ∷ item.id
          ∷ ":"
          ∷ id
          ∷ ":"
          ∷ tools.quote verification
          ∷ [])

  -- A criterion that counts as assigned.
  abbrev pub is_assigned : String → Bool
  is_assigned id = is_some (criterion_of criteria id) && elem id implementation_ids

  unfoldable pub criteria_issues : WorkItem → List String
  unfolding trim
  criteria_issues item =
      each (assigned_issue item) item.acceptance_criteria
      ++ raise_if (length (keep is_assigned item.acceptance_criteria) == 0)
          ("implementation_plan_work_item_without_implementation_criterion:" ∷ item.id ∷ [])

  -- `coverage.set(criterionId, (coverage.get(criterionId) ?? 0) + 1)` for what an item names.
  unfoldable pub cover : List String → Dict ℕ → Dict ℕ
  cover [] coverage = coverage
  cover (id ∷ ids) coverage =
      let rest = cover ids coverage in
      let counted = cover ids (put id (degree coverage id + 1) coverage) in
      if is_assigned id then counted else rest

  -- What the loop over the items has written.
  pub record Progress : Type 0 where
    pub issues : List String
    pub claims : Claims tools
    pub coverage : Dict ℕ

  module _ (agents : List Agent) (focused : List String) where
    -- The body of the loop, for an item whose identifier has occurred before or not.
    unfoldable pub inspect_item : Bool → WorkItem → Progress → Progress
    unfolding invalid_commands projected scope_issues owner_issues path_issues reuse_issues
        criteria_issues cover
    inspect_item known item p =
        let paths = path_issues tools agents item item.owned_paths p.claims in
        record {
          issues =
              p.issues
              ++ (raise_if known ("implementation_plan_duplicate_work_item:" ∷ item.id ∷ [])
                  ++ (invalid_commands tools item
                      ++ (projected tools item
                          ++ (scope_issues tools focused item
                              ++ (owner_issues tools item
                                    (registry_agent agents item.owner_agent_id)
                                  ++ (paths.0 ++ (reuse_issues item ++ criteria_issues item)))))));
          claims = paths.1;
          coverage = cover item.acceptance_criteria p.coverage;
        }

    unfoldable pub inspect_items : List String → List WorkItem → Progress → Progress
    unfolding inspect_item
    inspect_items seen [] p = p
    inspect_items seen (item ∷ items) p =
        inspect_items (item.id ∷ seen) items (inspect_item (elem item.id seen) item p)

abbrev pub work_ids : List WorkItem → List String
work_ids items = map (λ (i : WorkItem). i.id) items

abbrev pub unknown_dependencies : List WorkItem → List String
unknown_dependencies items =
    each
      (λ item.
        each
          (λ d.
            raise_if (not (elem d (work_ids items)))
              ("implementation_plan_dependency_unknown:" ∷ item.id ∷ ":" ∷ d ∷ []))
          item.dependencies)
      items

abbrev pub uncovered : List Criterion → Dict ℕ → List String
uncovered criteria coverage =
    each
      (λ (c : Criterion).
        raise_if (c.blocking && degree coverage c.id == 0)
          ("implementation_plan_uncovered_criterion:" ∷ c.id ∷ []))
      criteria

module _ (tools : Tools) where
  -- `focusedValidationCommands`
  unfoldable pub focused_commands : Options → List String
  unfolding trim
  focused_commands o = unique (keep tools.is_executable (map trim (or_else o.focused [])))

  abbrev pub focused_missing : List String → List WorkItem → List String
  focused_missing focused items =
      each
        (λ command.
          raise_if (not (any (λ (i : WorkItem). elem command i.validation) items))
            ("implementation_plan_focused_validation_missing:" ∷ tools.quote command ∷ []))
        focused

  abbrev pub zero_coverage : List Criterion → Dict ℕ
  zero_coverage [] = []
  zero_coverage (c ∷ cs) = (c.id, 0) ∷ zero_coverage cs

  pub record Inspection : Type 0 where
    pub issues : List String
    pub claims : Claims tools

  abbrev pub with_cycles :
      List String → List String → Claims tools → Option (List String) → Option Inspection
  with_cycles before after claims none = none
  with_cycles before after claims (some cycles) =
      some (record { issues = unique (before ++ (cycles ++ after)); claims = claims })

  -- `inspectImplementationPlan`; `none` would be a search for cycles that runs out of fuel.
  unfoldable pub inspect : List Agent → Options → ImplementationPlan → Option Inspection
  unfolding inspect_items focused_commands collect_cycle_issues
  inspect agents o plan =
      let criteria = plan.acceptance_criteria in
      let proven = implementation_criteria tools criteria in
      let focused = focused_commands o in
      let p = inspect_items tools o criteria agents focused [] plan.work_items (record {
        issues =
            duplicates [] (criterion_ids criteria)
              "implementation_plan_duplicate_acceptance_criterion:";
        claims = record { claimed = []; owners = [] };
        coverage = zero_coverage proven;
      }) in
      with_cycles (p.issues ++ unknown_dependencies plan.work_items)
        (uncovered proven p.coverage ++ focused_missing focused plan.work_items) p.claims
        (collect_cycle_issues plan.work_items)
