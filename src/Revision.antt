-- ===== src/Revision.antt =====
-- .agents/runtime/review-contract.mjs: the revision that a review attests, from the artifacts of its
-- context. The revisions that the pattern of `criterionRevision` finds in a source are a parameter;
-- the values that an error lists are left out.
pub mod Authority
use Prim.Native.Char.{code}
use agentic_harness.Base.{
  ℕ, String, Bool, false, not, ◌||◌, Option, none, some, List, [], ◌∷◌, ◌++◌, map, all, keep, elem,
  trim, is_truthy, or_else, ◌==◌, ◌=ₛ◌, if◌then◌else◌,
}
use agentic_harness.Review.{is_sdd_review_stage, positive_integer}

-- A missing text is empty; a number is `none` where it is no whole number.
pub record Artifact : Type 0 where
  pub review_stage : String
  pub producer : String
  pub reviewed_revision : Option ℕ
  pub criterion_sources : List String
  pub plan_revision : Option ℕ

unfoldable pub has_colon : String → Bool
has_colon String.[] = false
has_colon (String.◌∷◌ c s) = code c == 58 || has_colon s

-- The part after the last colon.
unfoldable pub last_part : String → String
unfolding has_colon
last_part String.[] = String.[]
last_part (String.◌∷◌ c s) =
    let rest = last_part s in
    if has_colon s then rest else if code c == 58 then s else String.◌∷◌ c s

-- The empty text where there is no stage.
unfoldable pub artifact_stage : Artifact → String
unfolding last_part trim
artifact_stage a =
    if is_truthy (trim a.review_stage) then trim a.review_stage else last_part (trim a.producer)

unfoldable pub is_product : Artifact → Bool
unfolding artifact_stage
is_product a = artifact_stage a =ₛ "product-discovery"

unfoldable pub is_implementation_plan : Artifact → Bool
unfolding artifact_stage
is_implementation_plan a = artifact_stage a =ₛ "technical-refinement"

pub data Found : Type 0 where
  ambiguous : String → Found
  settled : Option ℕ → Found

abbrev pub then_found : Found → (Option ℕ → Found) → Found
then_found (ambiguous l) f = ambiguous l
then_found (settled n) f = f n

unfoldable pub positives : List (Option ℕ) → List ℕ
unfolding positive_integer
positives [] = []
positives (v ∷ vs) = elim (positive_integer v) [ none ↦ positives vs | some n ↦ n ∷ positives vs ]

-- The one value of a set that has at most one.
abbrev pub only : String → List ℕ → Found
only label [] = settled none
only label (n ∷ ns) = if all (λ m. m == n) ns then settled (some n) else ambiguous label

unfoldable pub unique_revision : String → List (Option ℕ) → Found
unfolding positives
unique_revision label values = only label (positives values)

-- A first value, or the second where there is none.
abbrev pub else_found : Option ℕ → Found → Found
else_found (some n) other = settled (some n)
else_found none other = other

abbrev pub first_of : Option ℕ → Option ℕ → Found
first_of (some n) other = settled (some n)
first_of none other = settled (some (or_else other 1))

abbrev somes : List ℕ → List (Option ℕ)
somes [] = []
somes (n ∷ ns) = some n ∷ somes ns

-- The artifacts that review one of the stages.
unfoldable pub reviews_of : List String → List Artifact → List Artifact
unfolding trim
reviews_of stages artifacts = keep (λ a. elem (trim a.review_stage) stages) artifacts

unfoldable pub reviewed : List Artifact → List (Option ℕ)
reviewed artifacts = map (λ a. a.reviewed_revision) artifacts

module _ (revisions_in : String → List ℕ) (is_bootstrap_stage : String → Bool) where
  abbrev found_in : List String → List ℕ
  found_in [] = []
  found_in (s ∷ ss) = revisions_in s ++ found_in ss

  -- `criterionRevision`
  unfoldable pub criterion_revision : Artifact → Found
  unfolding unique_revision
  criterion_revision a = unique_revision "criterion_sources" (somes (found_in a.criterion_sources))

  -- The revisions of the criteria, or the first error.
  unfoldable pub criteria_from : List (Option ℕ) → List Artifact → Found
  unfolding criterion_revision unique_revision
  criteria_from seen [] = unique_revision "product" seen
  criteria_from seen (a ∷ rest) =
      then_found (criterion_revision a) (λ r. criteria_from (r ∷ seen) rest)

  unfoldable pub product_revision : List Artifact → Found
  unfolding criteria_from reviewed unique_revision
  product_revision products =
      then_found (unique_revision "product" (reviewed products))
        (λ r. else_found r (criteria_from [] products))

  -- The revision that QA and the plan attest together.
  abbrev pub lineage : List String → List Artifact → Option ℕ → Option ℕ → Found
  lineage stages reviews plan product =
      then_found (unique_revision "verification-lineage" (reviewed (reviews_of stages reviews)))
        (λ direct.
          then_found (unique_revision "verification-lineage" (plan ∷ direct ∷ []))
            (λ v. first_of v product))

  abbrev pub downstream : List Artifact → Option ℕ → Option ℕ → Found
  downstream reviews (some plan) product = settled (some plan)
  downstream reviews none product =
      then_found (unique_revision "downstream-reviews" (reviewed reviews)) (λ d. first_of d product)

  abbrev pub by_stage : String → List Artifact → Option ℕ → Option ℕ → Found
  by_stage stage reviews plan product =
      if stage =ₛ "operational-readiness"
      then lineage ("quality-assurance" ∷ []) reviews plan product
      else if stage =ₛ "product-acceptance"
      then lineage ("quality-assurance" ∷ "operational-readiness" ∷ []) reviews plan product
      else downstream reviews plan product

  unfoldable pub verified_revision : String → List Artifact → Option ℕ → Found
  unfolding is_implementation_plan is_product reviewed unique_revision reviews_of
  verified_revision stage artifacts product =
      then_found
        (unique_revision "implementation-plan"
          (map (λ a. a.plan_revision) (keep is_implementation_plan artifacts)))
        (λ plan. by_stage stage (keep (λ a. not (is_product a)) artifacts) plan product)

  -- `authoritativeReviewRevisionFromContext`
  unfoldable pub authoritative_revision : String → List Artifact → Found
  unfolding product_revision verified_revision is_sdd_review_stage is_product
  authoritative_revision stage artifacts =
      if not (is_sdd_review_stage is_bootstrap_stage stage)
      then settled (some 1)
      else then_found (product_revision (keep is_product artifacts)) (λ product.
        if is_bootstrap_stage stage || stage =ₛ "technical-refinement"
        then settled (some (or_else product 1))
        else verified_revision stage artifacts product)
