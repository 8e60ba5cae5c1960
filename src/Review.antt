-- ===== src/Review.antt =====
-- .agents/runtime/review-contract.mjs and bootstrap-review-dependencies.mjs: the contract of a review
-- in a handoff, and the edges between the reviews of a bootstrap. Missing texts are empty; the tests
-- of a stage's name are parameters.
pub mod Accepted
pub mod Edges
pub mod Cycles
use Prim.Native.String.{◌++◌}
use agentic_harness.Base.{
  ℕ, String, Bool, true, false, not, ◌||◌, Option, none, some, elem, is_blank, trim, is_truthy,
  or_else, ltb, ◌==◌, ◌=ₛ◌, if◌then◌else◌, Dict, lookup, keep, unique,
}
use mathlib.Core.List.{List, [], ◌∷◌, map}

abbrev pub fixed_review_stages : List String
fixed_review_stages =
    "technical-refinement" ∷ "quality-assurance" ∷ "operational-readiness" ∷ "product-acceptance"
    ∷ []

unfoldable pub is_sdd_review_stage : (String → Bool) → String → Bool
unfolding trim
is_sdd_review_stage is_bootstrap_stage stage =
    is_bootstrap_stage (trim stage) || elem (trim stage) fixed_review_stages

-- `positiveInteger`; `none` where the value is no whole number.
unfoldable pub positive_integer : Option ℕ → Option ℕ
positive_integer none = none
positive_integer (some n) = if ltb 0 n then some n else none

unfoldable pub required_review_decision : String → String
required_review_decision stage = if stage =ₛ "product-acceptance" then "accepted" else "approved"

-- `required_deltas` is `none` where it is no array. `next_role` is `some none` where it is null and
-- `none` where it is no text.
pub record Review : Type 0 where
  pub role : String
  pub stage : String
  pub reviewed_revision : ℕ
  pub decision : String
  pub required_deltas : Option (List String)
  pub next_role : Option (Option String)

pub record Brief : Type 0 where
  pub stage : Option String
  pub role : Option String
  pub agent_id : String
  pub reviewed_revision : Option ℕ

abbrev pub is_empty_array : Option (List String) → Bool
is_empty_array (some []) = true
is_empty_array _ = false

abbrev pub is_filled_array : Option (List String) → Bool
is_filled_array (some (x ∷ xs)) = true
is_filled_array _ = false

abbrev pub names_role : Option (Option String) → Bool
names_role (some (some r)) = not (is_blank r)
names_role _ = false

-- Null or a text that is not blank.
abbrev pub may_follow : Option (Option String) → Bool
may_follow (some none) = true
may_follow r = names_role r

-- The code of the first fault; `none` where the decision is consistent.
abbrev pub decision_fault : String → Review → Option String
decision_fault required r =
    if r.decision =ₛ required
    then if not (is_empty_array r.required_deltas)
      then some "review_approved_with_deltas"
      else if not (may_follow r.next_role)
      then some "review_approved_next_role_invalid"
      else none
    else if elem r.decision ("changes_requested" ∷ "blocked" ∷ [])
    then if not (is_filled_array r.required_deltas)
      then some "review_negative_without_deltas"
      else if not (names_role r.next_role)
      then some "review_negative_without_next_role"
      else none
    else some "review_decision_invalid"

abbrev pub expected_revision : Brief → ℕ
expected_revision b = or_else (positive_integer b.reviewed_revision) 1

abbrev pub review_fault : Brief → String → Option Review → Option String
review_fault b stage none = some "review_missing"
review_fault b stage (some r) =
    if not (r.role =ₛ or_else b.role b.agent_id)
    then some "review_role_mismatch"
    else if not (r.stage =ₛ stage)
    then some "review_stage_mismatch"
    else if not (r.reviewed_revision == or_else (positive_integer b.reviewed_revision) 1)
    then some "review_revision_mismatch"
    else decision_fault (required_review_decision stage) r

-- `validateSddReviewContract`: the code of the fault.
unfoldable pub validate_review_contract :
    (String → Bool) → Brief → String → Option Review → Option String
unfolding is_sdd_review_stage required_review_decision positive_integer
validate_review_contract is_bootstrap_stage b status review =
    let stage = or_else b.stage "implementation" in
    if not (is_sdd_review_stage is_bootstrap_stage stage) || not (status =ₛ "complete")
    then none
    else review_fault b stage review

pub record Edge : Type 0 where
  pub from_stage : String
  pub to_stage : String
  pub required_decision : String
  pub rationale : String
  pub provenance : String

unfoldable pub edge_key : Edge → String
edge_key e = e.from_stage ++ ("->" ++ (e.to_stage ++ (":" ++ e.required_decision)))

pub data Normalized : Type 0 where
  edges : List Edge → Normalized
  faulty : String → Normalized

unfoldable pub compact_edge : String → Edge → Edge
unfolding trim
compact_edge provenance raw = record {
  from_stage = trim raw.from_stage;
  to_stage = trim raw.to_stage;
  required_decision = trim raw.required_decision;
  rationale = trim raw.rationale;
  provenance = if is_truthy (trim raw.provenance) then trim raw.provenance else provenance;
}

module _ (is_review_stage : String → Bool) where
  -- The checks of one edge, in order.
  abbrev pub edge_fault : Edge → Option String
  edge_fault e =
      if not (is_review_stage e.from_stage)
      then some "bootstrap_review_dependency_invalid_source"
      else if not (is_review_stage e.to_stage)
      then some "bootstrap_review_dependency_invalid_target"
      else if e.from_stage =ₛ e.to_stage
      then some "bootstrap_review_dependency_self_cycle"
      else if not (is_truthy e.required_decision)
      then some "bootstrap_review_dependency_required_decision_missing"
      else if not (is_truthy e.rationale)
      then some "bootstrap_review_dependency_rationale_missing"
      else none

  abbrev pub with_edge : Edge → Normalized → Normalized
  with_edge e (edges es) = edges (e ∷ es)
  with_edge e (faulty c) = faulty c

  abbrev pub add_edge : Option String → Bool → Edge → (added skipped : Normalized) → Normalized
  add_edge (some c) known e added skipped = faulty c
  add_edge none true e added skipped = skipped
  add_edge none false e added skipped = with_edge e added

  unfoldable pub normalize_from : List String → String → List Edge → Normalized
  unfolding compact_edge edge_key
  normalize_from seen provenance [] = edges []
  normalize_from seen provenance (raw ∷ rest) =
      let e = compact_edge provenance raw in
      add_edge (edge_fault e) (elem (edge_key e) seen) e
        (normalize_from (edge_key e ∷ seen) provenance rest) (normalize_from seen provenance rest)

  -- `normalizeBootstrapReviewDependencies` of an array of records.
  unfoldable pub normalize_review_dependencies : List Edge → String → Normalized
  unfolding normalize_from
  normalize_review_dependencies value provenance = normalize_from [] provenance value

unfoldable pub merge_from : List String → List Edge → List Edge
unfolding edge_key
merge_from seen [] = []
merge_from seen (e ∷ es) =
    let fresh = e ∷ merge_from (edge_key e ∷ seen) es in
    let known = merge_from seen es in if elem (edge_key e) seen then known else fresh

abbrev joined_groups : List (List Edge) → List Edge
joined_groups [] = []
joined_groups ([] ∷ gs) = joined_groups gs
joined_groups ((e ∷ g) ∷ gs) = e ∷ joined_groups (g ∷ gs)

-- `mergeBootstrapReviewDependencies`
unfoldable pub merge_review_dependencies : List (List Edge) → List Edge
unfolding merge_from
merge_review_dependencies groups = merge_from [] (joined_groups groups)

abbrev pub tasks_of : List (Option String) → List String
tasks_of [] = []
tasks_of (none ∷ ids) = tasks_of ids
tasks_of (some id ∷ ids) = if is_truthy id then id ∷ tasks_of ids else tasks_of ids

-- `reviewDependenciesForStage`
unfoldable pub review_dependencies_for_stage :
    String → String → List Edge → Dict String → List String
review_dependencies_for_stage stage discovery_task_id es task_ids =
    let upstream = map (λ e. lookup e.from_stage task_ids) (keep (λ e. e.to_stage =ₛ stage) es) in
    unique (discovery_task_id ∷ tasks_of upstream)
