-- ===== src/Routing.antt =====
-- .agents/runtime/model-router.mjs: the reasoning effort and the steps of a route. The rationale texts,
-- the catalog of models and its checks (model-capabilities.mjs) are left out.
pub mod Effort
use agentic_harness.Base.{
  ℕ, String, Bool, not, ◌&&◌, ◌||◌, List, [], ◌∷◌, max, elem, leb, ◌==◌, ◌=ₛ◌, if◌then◌else◌,
}

abbrev pub levels : List String
levels = "low" ∷ "medium" ∷ "high" ∷ "max" ∷ []

-- A missing text is empty. `files` is `estimatedFiles ?? ownedPaths?.length ?? 0`.
pub record RoutedTask : Type 0 where
  pub complexity : String
  pub files : ℕ
  pub criteria : ℕ
  pub contract_change : Bool
  pub migration : Bool
  pub role : String
  pub stage : String

unfoldable pub normalize_level : String → String → String
normalize_level value fallback = if elem value levels then value else fallback

unfoldable pub complexity_of : RoutedTask → String
complexity_of t =
    if elem t.complexity ("low" ∷ "medium" ∷ "high" ∷ "critical" ∷ [])
    then t.complexity
    else if t.contract_change || t.migration || leb 12 t.files || leb 10 t.criteria
    then "high"
    else if leb t.files 4 && leb t.criteria 5
    then "low"
    else "medium"

unfoldable pub steps_for : String → String → ℕ
unfolding normalize_level
steps_for level role =
    let l = normalize_level level "medium" in
    let base =
      if l =ₛ "low" then 45 else if l =ₛ "medium" then 70 else if l =ₛ "high" then 100 else 140 in
    if elem role ("technical-lead" ∷ "solution-architect" ∷ "quality-assurance" ∷ [])
    then max base 100
    else base

unfoldable pub is_simple : RoutedTask → Bool
unfolding complexity_of
is_simple t =
    complexity_of t =ₛ "low"
    && leb t.files 4
    && leb t.criteria 5
    && not t.contract_change
    && not t.migration

unfoldable pub implementation_reasoning : RoutedTask → String → ℕ → String
unfolding is_simple complexity_of normalize_level
implementation_reasoning t level attempt =
    if leb 3 attempt || complexity_of t =ₛ "critical"
    then "max"
    else if is_simple t && attempt == 1
    then normalize_level level "medium"
    else if leb 2 attempt
    then "max"
    else normalize_level level "high"

abbrev pub governed : String → ℕ → String
governed level attempt = if leb 2 attempt || level =ₛ "max" then "max" else "high"

abbrev pub is_implementation : String → RoutedTask → Bool
is_implementation role t =
    elem role ("developer" ∷ "platform-engineer" ∷ "database-administrator" ∷ [])
    || t.role =ₛ "implementation"
    || t.role =ₛ "platform"

abbrev pub is_governed : Bool → String → Bool
is_governed is_review_stage role =
    elem role (
      "technical-lead" ∷ "quality-assurance" ∷ "product-owner" ∷ "solution-architect"
      ∷ "ux-designer" ∷ "devops-engineer" ∷ "ai-llmops-engineer" ∷ [])
    || is_review_stage

-- The effort of `resolveModelRoute`: its four governed branches choose the same one. `requested` is
-- `reasoning?.level ?? task.reasoningLevel`.
unfoldable pub reasoning_effort : (String → Bool) → RoutedTask → String → String → ℕ → String
unfolding implementation_reasoning normalize_level
reasoning_effort is_review_stage t role requested attempt =
    let level = normalize_level requested "medium" in
    if is_implementation role t
    then implementation_reasoning t level attempt
    else if is_governed (is_review_stage t.stage) role
    then governed level attempt
    else level

-- The order of the levels.
unfoldable pub rank : String → ℕ
rank level =
    if level =ₛ "low" then 0 else if level =ₛ "medium" then 1 else if level =ₛ "high" then 2 else 3
