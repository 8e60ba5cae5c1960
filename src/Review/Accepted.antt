-- ===== src/Review/Accepted.antt =====
-- .agents/runtime/review-contract.mjs: what a valid review says.
use agentic_harness.Base.{
  String, ◌≡◌, refl, Bool, true, ◌⊎◌, inl, inr, Option, none, some, arith, elem, or_else, ◌=ₛ◌,
  Bool-cases, [], ◌∷◌,
}
use agentic_harness.Review.{
  Review, Brief, is_sdd_review_stage, required_review_decision, positive_integer, review_fault,
  decision_fault, validate_review_contract, is_empty_array, is_filled_array, names_role, may_follow,
  expected_revision,
}

abbrev pub IsConsistent : Brief → String → Review → Type 0
IsConsistent b stage r =
    ((r.role =ₛ or_else b.role b.agent_id) ≡ true)
    × ((r.stage =ₛ stage) ≡ true)
    × (r.reviewed_revision ≡ expected_revision b)
    × (((r.decision =ₛ required_review_decision stage) ≡ true)
          × (is_empty_array r.required_deltas ≡ true)
          × (may_follow r.next_role ≡ true)
        ⊎ (elem r.decision ("changes_requested" ∷ "blocked" ∷ []) ≡ true)
          × (is_filled_array r.required_deltas ≡ true)
          × (names_role r.next_role ≡ true))

decided :
    (required : String) (r : Review)
    → decision_fault required r ≡ none
    → ((r.decision =ₛ required) ≡ true)
        × (is_empty_array r.required_deltas ≡ true)
        × (may_follow r.next_role ≡ true)
      ⊎ (elem r.decision ("changes_requested" ∷ "blocked" ∷ []) ≡ true)
        × (is_filled_array r.required_deltas ≡ true)
        × (names_role r.next_role ≡ true)
decided required r h = elim (Bool-cases (r.decision =ₛ required)) [
  | inl positive ↦ inl (positive, ground arith, ground arith)
  | inr other ↦ inr (ground arith, ground arith, ground arith)
]

reviewed :
    (b : Brief) (stage : String) (review : Option Review)
    → review_fault b stage review ≡ none
    → (r : Review) × (review ≡ some r) × IsConsistent b stage r
unfolding required_review_decision positive_integer
reviewed b stage none h = absurd (cc h)
reviewed b stage (some r) h = (
  r,
  refl,
  (
    ground arith,
    ground arith,
    ground arith,
    decided (required_review_decision stage) r (ground arith),
  ),
)

-- A complete handoff of a review stage passes the contract only with a review of the role, the stage
-- and the revision that the brief asks for, which either takes the stage's positive decision and
-- leaves no delta open and names no blank next role, or asks for changes or blocks, with deltas and with the role that goes on.
pub validate_review_contract_sound :
    (is_bootstrap_stage : String → Bool) (b : Brief) (review : Option Review)
    → is_sdd_review_stage is_bootstrap_stage (or_else b.stage "implementation") ≡ true
    → validate_review_contract is_bootstrap_stage b "complete" review ≡ none
    → (r : Review) × (review ≡ some r) × IsConsistent b (or_else b.stage "implementation") r
unfolding validate_review_contract
validate_review_contract_sound is_bootstrap_stage b review stage valid =
    reviewed b (or_else b.stage "implementation") review (ground arith)
