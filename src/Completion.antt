-- ===== src/Completion.antt =====
-- .agents/runtime/completion-gate.mjs: when the handoff of a task is accepted. A violation is a
-- constructor with the parts of its text, and the tests of a text's start are tests of the constructor.
pub mod Acceptance
use agentic_harness.Base.{
  String, Bool, true, false, not, ◌&&◌, ◌||◌, List, [], ◌∷◌, ◌++◌, map, any, keep, length, elem,
  unique, is_blank, ltb, ◌=ₛ◌, if◌then◌else◌, Option, none, some,
}

pub record Criterion : Type 0 where
  pub id : String
  pub blocking : Bool

pub record CriterionResult : Type 0 where
  pub criterion_id : String
  pub result : String
  pub evidence : String

-- `blocking` is `entry.blocking !== false`; missing texts are empty.
pub record Validation : Type 0 where
  pub command : String
  pub phase : String
  pub blocking : Bool
  pub authority : String
  pub result : String
  pub evidence : String

pub record TaskBrief : Type 0 where
  pub acceptance_criteria : List Criterion
  pub validation : List String

pub record SddReview : Type 0 where
  pub decision : String
  pub required_deltas : List String

pub record Handoff : Type 0 where
  pub status : String
  pub criterion_results : List CriterionResult
  pub validation : List Validation
  pub sdd_review : Option SddReview
  pub residual_risks : List String
  pub follow_ups : List String

pub data Violation : Type 0 where
  criterion_missing criterion_evidence_missing required_validation_missing_runtime_receipt
        required_validation_not_passed :
      String → Violation
  criterion_not_passed final_validation : String → String → Violation
  criterion_result_duplicate validation_result_conflict : String → List String → Violation
  sdd_changes_requested sdd_blocked sdd_required_deltas_open blocking_residual_risk
        required_follow_up_open :
      Violation

-- The violations of one criterion, by the results that match it.
abbrev criterion_violations : String → List CriterionResult → List Violation
criterion_violations id [] = criterion_missing id ∷ []
criterion_violations id (r ∷ []) =
    if not (r.result =ₛ "passed")
    then criterion_not_passed id r.result ∷ []
    else if is_blank r.evidence
    then criterion_evidence_missing id ∷ []
    else []
criterion_violations id (r ∷ q ∷ rest) =
    criterion_result_duplicate id (map (λ m. m.result) (r ∷ q ∷ rest)) ∷ []

abbrev pub results_of : String → List CriterionResult → List CriterionResult
results_of id results = keep (λ r. r.criterion_id =ₛ id) results

abbrev required_from : List CriterionResult → List Criterion → List Violation
required_from results [] = []
required_from results (c ∷ cs) =
    criterion_violations c.id (results_of c.id results) ++ required_from results cs

abbrev pub required_criteria : TaskBrief → List Criterion
required_criteria brief = keep (λ c. c.blocking) brief.acceptance_criteria

unfoldable pub required_criterion_violations : TaskBrief → Handoff → List Violation
required_criterion_violations brief h = required_from h.criterion_results (required_criteria brief)

abbrev pub is_final : String → Validation → Bool
is_final command v = v.command =ₛ command && v.phase =ₛ "final" && v.blocking

abbrev pub is_runtime : Validation → Bool
is_runtime v = v.authority =ₛ "runtime"

abbrev pub contradicts : Validation → Bool
contradicts v = elem v.result ("failed" ∷ "blocked" ∷ [])

-- The entries other than the receipt: the receipt is the one entry of the runtime's authority.
abbrev contradictory : List Validation → List Validation
contradictory entries = keep (λ v. not (is_runtime v) && contradicts v) entries

abbrev receipt_violations : String → Validation → List Violation
receipt_violations command receipt =
    if not (receipt.result =ₛ "passed") || is_blank receipt.evidence
    then required_validation_not_passed command ∷ []
    else []

abbrev conflict_violations : String → Validation → List Validation → List Violation
conflict_violations command receipt [] = []
conflict_violations command receipt (v ∷ vs) =
    validation_result_conflict command (receipt.result ∷ map (λ e. e.result) (v ∷ vs)) ∷ []

-- The violations of one required command, by its final blocking entries and the runtime's of these.
abbrev command_violations : String → List Validation → List Validation → List Violation
command_violations command entries [] = required_validation_missing_runtime_receipt command ∷ []
command_violations command entries (r ∷ []) =
    receipt_violations command r ++ conflict_violations command r (contradictory entries)
command_violations command entries (r ∷ q ∷ rest) =
    validation_result_conflict command (map (λ e. e.result) (r ∷ q ∷ rest)) ∷ []

abbrev pub entries_of : String → List Validation → List Validation
entries_of command vs = keep (is_final command) vs

abbrev commands_from : List Validation → List String → List Violation
commands_from vs [] = []
commands_from vs (c ∷ cs) =
    command_violations c (entries_of c vs) (keep is_runtime (entries_of c vs))
    ++ commands_from vs cs

-- A final blocking entry of a command that is not required, which has not passed.
abbrev pub is_stray : List String → Validation → Bool
is_stray required v =
    v.phase =ₛ "final" && v.blocking && not (v.result =ₛ "passed") && not (elem v.command required)

unfoldable pub required_validation_violations : TaskBrief → Handoff → List Violation
required_validation_violations brief h =
    let required = unique brief.validation in
    commands_from h.validation required
    ++ map (λ v. final_validation v.result v.command) (keep (is_stray required) h.validation)

pub data FailureClass : Type 0 where
  completion_validation_failed completion_contract_conflict completion_evidence_missing
        completion_semantic_unproven :
      FailureClass

abbrev fails_validation : Violation → Bool
fails_validation (required_validation_not_passed _) = true
fails_validation (final_validation result _) = elem result ("failed" ∷ "blocked" ∷ [])
fails_validation _ = false

abbrev conflicts : Violation → Bool
conflicts (validation_result_conflict _ _) = true
conflicts (criterion_result_duplicate _ _) = true
conflicts _ = false

abbrev lacks_evidence : Violation → Bool
lacks_evidence (criterion_missing _) = true
lacks_evidence (criterion_evidence_missing _) = true
lacks_evidence (required_validation_missing_runtime_receipt _) = true
lacks_evidence _ = false

-- The four results differ in their code and class; each is a retryable failure of category
-- "contract" whose same-attempt repair is exhausted.
unfoldable pub classify_completion_failure : List Violation → FailureClass
classify_completion_failure vs =
    if any fails_validation vs
    then completion_validation_failed
    else if any conflicts vs
    then completion_contract_conflict
    else if any lacks_evidence vs
    then completion_evidence_missing
    else completion_semantic_unproven

abbrev add_if : Bool → Violation → List Violation
add_if c v = if c then v ∷ [] else []

abbrev pub has_decision : String → Option SddReview → Bool
has_decision d none = false
has_decision d (some r) = r.decision =ₛ d

abbrev pub has_deltas : Option SddReview → Bool
has_deltas none = false
has_deltas (some r) = ltb 0 (length r.required_deltas)

pub data Outcome : Type 0 where
  complete_proven : List Violation → Outcome
  rejected : FailureClass → List Violation → Outcome
  handoff_other : String → List Violation → Outcome

abbrev pub is_accepted : Outcome → Bool
is_accepted (complete_proven _) = true
is_accepted _ = false

abbrev pub outcome_of : String → List Violation → Outcome
outcome_of status [] = if status =ₛ "complete" then complete_proven [] else handoff_other status []
outcome_of status (v ∷ vs) =
    if status =ₛ "complete"
    then rejected (classify_completion_failure (v ∷ vs)) (v ∷ vs)
    else handoff_other status (v ∷ vs)

-- The tests `/^blocking:/i` and `/^required:/i` are the host's.
pub record Prefixes : Type 0 where
  pub is_blocking_risk : String → Bool
  pub is_required_follow_up : String → Bool

module _ (prefixes : Prefixes) where
  unfoldable pub completion_violations : TaskBrief → Handoff → List Violation
  unfolding required_criterion_violations required_validation_violations
  completion_violations brief h =
      let flags =
        add_if (has_decision "changes_requested" h.sdd_review) sdd_changes_requested
        ++ add_if (has_decision "blocked" h.sdd_review) sdd_blocked
        ++ add_if (has_deltas h.sdd_review) sdd_required_deltas_open
        ++ add_if (any prefixes.is_blocking_risk h.residual_risks) blocking_residual_risk
        ++ add_if (any prefixes.is_required_follow_up h.follow_ups) required_follow_up_open in
      required_criterion_violations brief h ++ (required_validation_violations brief h ++ flags)

  unfoldable pub evaluate_completion : TaskBrief → Handoff → Outcome
  unfolding completion_violations classify_completion_failure
  evaluate_completion brief h = outcome_of h.status (completion_violations brief h)
