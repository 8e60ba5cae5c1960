-- ===== src/Compiler/Checks.antt =====
-- .agents/runtime/dag-compiler.mjs: the checks of `inspectImplementationPlan` on the commands, the owner
-- and the paths of a work item, with those of .agents/runtime/validation-command.mjs.
use agentic_harness.Base.{
  ℕ, ◌+◌, String, Bool, true, false, not, ◌&&◌, Option, none, some, List, [], ◌∷◌, ◌++◌, map, Dict,
  lookup, put, elem, find, keep, length, or_else, ltb, ◌==◌, ◌=ₛ◌, trim, is_truthy, if◌then◌else◌,
}
use agentic_harness.Compiler.{Criterion, WorkItem, Agent, Tools, registry_agent, template}
use agentic_harness.Compiler.Ownership.{implementation_roles, patterns_may_overlap, can_own_path}

-- The options of the inspection: the commands of a focused directive, and the catalog of commands.
pub record Options : Type 0 where
  pub focused : Option (List String)
  pub catalog : Option (List String)

-- An issue that is raised where a test holds.
abbrev pub raise_if : Bool → List String → List String
raise_if true parts = template parts ∷ []
raise_if false parts = []

-- The issues of each element, in order.
abbrev pub each {ℓ} : {A : Type ℓ} → (A → List String) → List A → List String
each f [] = []
each f (x ∷ xs) = f x ++ each f xs

-- The same with the index of the element.
abbrev pub each_from {ℓ} : {A : Type ℓ} → ℕ → (ℕ → A → List String) → List A → List String
each_from n f [] = []
each_from n f (x ∷ xs) = f n x ++ each_from (n + 1) f xs

abbrev pub criterion_of : List Criterion → String → Option Criterion
criterion_of criteria id = find (λ c. c.id =ₛ id) criteria

-- The identifiers that stand in the list a second time.
abbrev pub duplicates : List String → List String → String → List String
duplicates seen [] prefix = []
duplicates seen (x ∷ xs) prefix =
    raise_if (elem x seen) (prefix ∷ x ∷ []) ++ duplicates (x ∷ seen) xs prefix

module _ (tools : Tools) where
  abbrev pub invalid_command : WorkItem → ℕ → String → List String
  invalid_command item n command = raise_if (not (tools.is_executable command)) (
      "validation_command_not_executable:implementationPlan.workItems."
      ∷ item.id
      ∷ ".validation["
      ∷ tools.show n
      ∷ "]="
      ∷ tools.quote command
      ∷ [])

  -- `invalidValidationCommands`, as the issues that the inspection makes of it.
  unfoldable pub invalid_commands : WorkItem → List String
  invalid_commands item = each_from 0 (invalid_command item) item.validation

  -- `validationCommandProjectionIssues` on commands and identifiers of the same number.
  abbrev pub projection_from : ℕ → List String → List String → List String
  projection_from n (id ∷ ids) (command ∷ commands) =
      (if not (tools.is_executable (trim command))
        then template ("validation_command_projection_command_invalid:" ∷ tools.show n ∷ []) ∷ []
        else raise_if (not (id =ₛ tools.command_id (trim command)))
            ("validation_command_projection_id_mismatch:" ∷ tools.show n ∷ []))
      ++ projection_from (n + 1) ids commands
  projection_from n _ _ = []

  unfoldable pub projection_issues : List String → List String → List String
  unfolding trim
  projection_issues ids commands =
      if not (length ids == length commands)
      then "validation_command_projection_length_mismatch" ∷ []
      else projection_from 0 ids commands

  unfoldable pub projected : WorkItem → List String
  unfolding projection_issues
  projected item =
      if ltb 0 (length item.validation_command_ids)
      then map (λ issue. template ("implementation_plan_" ∷ issue ∷ ":" ∷ item.id ∷ []))
          (projection_issues item.validation_command_ids item.validation)
      else []

  -- `validationScopeCompatibilityIssue` for the stage "implementation".
  unfoldable pub scope_issue : String → String → Option String
  scope_issue scope command =
      let declared = tools.normalize_scope scope in
      let inferred = tools.scope_of command in
      if not (declared =ₛ "workspace")
      then some (template ("validation_scope_forbidden_for_stage:implementation:" ∷ declared ∷ []))
      else if not (inferred =ₛ "workspace")
      then some (
          template
            ("validation_scope_exceeds_task:implementation:" ∷ declared ∷ ":" ∷ inferred ∷ []))
      else none

  abbrev pub scope_raised : String → ℕ → Option String → List String
  scope_raised id n none = []
  scope_raised id n (some issue) =
      template
        ("implementation_plan_" ∷ issue ∷ ":" ∷ id ∷ ":validation[" ∷ tools.show n ∷ "]" ∷ [])
      ∷ []

  unfoldable pub scope_issues : List String → WorkItem → List String
  unfolding scope_issue
  scope_issues focused item =
      each_from 0
        (λ n command.
          scope_raised item.id n (scope_issue (or_else item.execution_scope "workspace") command)
          ++ raise_if (ltb 0 (length focused) && not (elem command focused)) (
              "implementation_plan_focused_validation_extra:"
              ∷ item.id
              ∷ ":validation["
              ∷ tools.show n
              ∷ "]="
              ∷ tools.quote command
              ∷ []))
        item.validation

  -- The checks of the owner.
  unfoldable pub owner_issues : WorkItem → Option Agent → List String
  owner_issues item none =
      template ("implementation_plan_agent_unknown:" ∷ item.owner_agent_id ∷ []) ∷ []
  owner_issues item (some a) =
      raise_if (not (elem a.execution_role implementation_roles))
        ("implementation_plan_agent_not_implementer:" ∷ item.owner_agent_id ∷ [])

  -- `claimedPaths`, the first one last, and `pathOwners`.
  pub record Claims : Type 0 where
    pub claimed : List (String × String)
    pub owners : Dict String

  abbrev pub outside : List Agent → WorkItem → String → Option Agent → List String
  outside agents item path none = []
  outside agents item path (some a) = raise_if (not (can_own_path tools agents a path)) (
      "implementation_plan_path_outside_agent_ownership:" ∷ item.id ∷ ":" ∷ item.owner_agent_id
      ∷ ":" ∷ path ∷ [])

  abbrev pub overlaps : WorkItem → String → List (String × String) → List String
  overlaps item path claimed =
      each
        (λ prior.
          raise_if (not (prior.1 =ₛ item.owner_agent_id) && patterns_may_overlap tools prior.0 path)
            ("implementation_plan_path_overlap:" ∷ prior.0 ∷ ":" ∷ prior.1 ∷ ":" ∷ path ∷ ":"
              ∷ item.owner_agent_id ∷ []))
        claimed

  abbrev pub multi_owner : WorkItem → String → Option String → List String
  multi_owner item path none = []
  multi_owner item path (some owner) =
      raise_if (is_truthy owner && not (owner =ₛ item.owner_agent_id)) (
        "implementation_plan_path_multi_owner:" ∷ path ∷ ":" ∷ owner ∷ ":" ∷ item.owner_agent_id
        ∷ [])

  abbrev pub claim : WorkItem → String → Claims → Claims
  claim item path c = record {
    claimed = c.claimed ++ (path, item.owner_agent_id) ∷ [];
    owners =
        if is_truthy (or_else (lookup path c.owners) "")
        then c.owners
        else put path item.owner_agent_id c.owners;
  }

  -- The loop over the owned paths: the issues and the claims after it.
  unfoldable pub path_issues : List Agent → WorkItem → List String → Claims → List String × Claims
  path_issues agents item [] c = ([], c)
  path_issues agents item (path ∷ paths) c =
      let rest = path_issues agents item paths (claim item path c) in
      (
        outside agents item path (registry_agent agents item.owner_agent_id)
            ++ (overlaps item path c.claimed
                ++ (multi_owner item path (lookup path c.owners) ++ rest.0)),
        rest.1,
      )

  -- `criterionVerificationIsCommand`
  abbrev pub is_trusted : Option (List String) → String → Bool
  is_trusted none command = true
  is_trusted (some commands) command = elem command (keep is_truthy (map trim commands))

  unfoldable pub is_command : Options → String → Bool
  unfolding trim
  is_command o verification =
      tools.is_executable (trim verification) && is_trusted o.catalog (trim verification)
