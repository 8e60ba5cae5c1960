-- ===== src/Compiler/Criteria.antt =====
-- .agents/runtime/acceptance-criteria.mjs and the canonical criteria of dag-compiler.mjs.
use agentic_harness.Base.{
  String, Bool, false, not, ◌&&◌, ◌||◌, Option, none, some, List, [], ◌∷◌, Dict, lookup, put, elem,
  keep, length, is_some, opt_eq, or_else, ltb, ◌==◌, ◌=ₛ◌, trim, is_truthy, if◌then◌else◌,
}
use agentic_harness.Compiler.{Criterion, ImplementationPlan, Tools}

abbrev pub acceptance_proof_stages : List String
acceptance_proof_stages =
    "implementation" ∷ "quality-assurance" ∷ "database-readiness" ∷ "infrastructure-readiness"
    ∷ "ai-readiness" ∷ "product-acceptance" ∷ []

module _ (tools : Tools) where
  -- `acceptanceCriterionProofStage`
  unfoldable pub proof_stage : Criterion → String
  unfolding trim
  proof_stage c =
      let explicit = trim (or_else c.proof_stage "") in
      if elem explicit acceptance_proof_stages then explicit else tools.inferred_stage c

  -- `criteriaForProofStages`
  unfoldable pub criteria_for : List Criterion → List String → List Criterion
  unfolding proof_stage
  criteria_for criteria stages = keep (λ c. elem (proof_stage c) stages) criteria

  unfoldable pub implementation_criteria : List Criterion → List Criterion
  unfolding criteria_for
  implementation_criteria criteria = criteria_for criteria ("implementation" ∷ [])

  unfoldable pub qa_criteria : List Criterion → List Criterion
  unfolding criteria_for
  qa_criteria criteria = criteria_for criteria ("implementation" ∷ "quality-assurance" ∷ [])

  unfoldable pub database_criteria : List Criterion → List Criterion
  unfolding criteria_for
  database_criteria criteria = criteria_for criteria ("database-readiness" ∷ [])

  unfoldable pub infrastructure_criteria : List Criterion → List Criterion
  unfolding criteria_for
  infrastructure_criteria criteria = criteria_for criteria ("infrastructure-readiness" ∷ [])

  unfoldable pub ai_criteria : List Criterion → List Criterion
  unfolding criteria_for
  ai_criteria criteria = criteria_for criteria ("ai-readiness" ∷ [])

-- Two criteria with the same `criterionAuthorityShape`.
unfoldable pub same_shape : Criterion → Criterion → Bool
same_shape a b =
    a.id =ₛ b.id
    && a.source =ₛ b.source
    && a.statement =ₛ b.statement
    && (if a.blocking then b.blocking else not b.blocking)
    && a.verification =ₛ b.verification
    && opt_eq a.proof_stage b.proof_stage

-- `new Map(criteria.map((criterion) => [criterion.id, criterion]))`
unfoldable pub by_id : List Criterion → Dict Criterion → Dict Criterion
by_id [] d = d
by_id (c ∷ cs) d = by_id cs (put c.id c d)

abbrev pub keys : Dict Criterion → List String
keys [] = []
keys ((k, c) ∷ d) = k ∷ keys d

abbrev pub differs : Criterion → Option Criterion → Bool
differs required none = false
differs required (some supplied) = not (same_shape supplied required)

abbrev pub mutated : Dict Criterion → Dict Criterion → List String
mutated [] supplied = []
mutated ((id, c) ∷ required) supplied =
    let rest = mutated required supplied in
    if differs c (lookup id supplied) then id ∷ rest else rest

pub record Canonical : Type 0 where
  pub plan : ImplementationPlan
  pub normalized : Bool
  pub omitted_ids : List String
  pub extra_ids : List String
  pub mutated_ids : List String

-- `canonicalizeImplementationPlanAcceptanceCriteria` of a list of required criteria.
unfoldable pub canonicalize : ImplementationPlan → List Criterion → Canonical
unfolding by_id same_shape
canonicalize plan [] = record {
  plan = plan;
  normalized = false;
  omitted_ids = [];
  extra_ids = [];
  mutated_ids = [];
}
canonicalize plan (c ∷ cs) =
    let required = by_id (c ∷ cs) [] in
    let supplied = by_id plan.acceptance_criteria [] in
    let omitted = keep (λ id. not (is_some (lookup id supplied))) (keys required) in
    let extra = keep (λ id. is_truthy id && not (is_some (lookup id required))) (keys supplied) in
    let changed = mutated required supplied in
    record {
      plan = record plan { acceptance_criteria = c ∷ cs };
      normalized =
          ltb 0 (length omitted)
          || ltb 0 (length extra)
          || ltb 0 (length changed)
          || not (length plan.acceptance_criteria == length (c ∷ cs));
      omitted_ids = omitted;
      extra_ids = extra;
      mutated_ids = changed;
    }
