-- ===== src/Compiler/Ownership.antt =====
-- .agents/runtime/dag-compiler.mjs: which agent may own a path, and which patterns may overlap.
use Prim.Native.Char.{code}
use agentic_harness.Base.{
  String, Bool, true, false, not, ◌&&◌, ◌||◌, List, [], ◌∷◌, ◌++◌, any, keep, elem, length, unique,
  ◌==◌, ◌=ₛ◌, if◌then◌else◌,
}
use agentic_harness.Compiler.{Agent, Tools}

abbrev pub implementation_roles : List String
implementation_roles = "implementation" ∷ "platform" ∷ []

-- `value.includes("*")`
unfoldable pub has_star : String → Bool
has_star String.[] = false
has_star (String.◌∷◌ c s) = code c == 42 || has_star s

-- The text before its first `*`.
unfoldable pub static_prefix : String → String
static_prefix String.[] = String.[]
static_prefix (String.◌∷◌ c s) =
    let rest = static_prefix s in if code c == 42 then String.[] else String.◌∷◌ c rest

-- `text.startsWith(start)`
unfoldable pub starts_with : String → String → Bool
starts_with s String.[] = true
starts_with String.[] (String.◌∷◌ d t) = false
starts_with (String.◌∷◌ c s) (String.◌∷◌ d t) = code c == code d && starts_with s t

module _ (tools : Tools) where
  -- `anyPatternMatches`
  unfoldable pub any_pattern_matches : List String → String → Bool
  any_pattern_matches patterns path = any (λ p. tools.pattern_matches p path) patterns

  -- `patternsMayOverlap`
  unfoldable pub patterns_may_overlap : String → String → Bool
  unfolding has_star static_prefix starts_with any_pattern_matches
  patterns_may_overlap a b =
      if a =ₛ b
      then true
      else if not (has_star a) && not (has_star b)
      then false
      else starts_with (static_prefix a) (static_prefix b)
        || starts_with (static_prefix b) (static_prefix a)
        || any_pattern_matches (a ∷ []) b
        || any_pattern_matches (b ∷ []) a

  -- `agentOwnedPatterns`
  unfoldable pub agent_owned_patterns : Agent → List String
  agent_owned_patterns a = unique (a.primary_paths ++ (a.shared_paths ++ a.collaborative_paths))

  -- `primaryImplementationOwnersForPath`
  unfoldable pub primary_owners : List Agent → String → List Agent
  unfolding any_pattern_matches
  primary_owners agents path =
      keep (λ a. any_pattern_matches a.primary_paths path)
        (keep (λ a. not (a.ownership_mode =ₛ "fallback-unclaimed-primary"))
          (keep (λ a. elem a.execution_role implementation_roles) agents))

  -- `agentCanOwnPath`
  unfoldable pub can_own_path : List Agent → Agent → String → Bool
  unfolding any_pattern_matches agent_owned_patterns primary_owners
  can_own_path agents a path =
      if any_pattern_matches (agent_owned_patterns a) path
      then true
      else if not (a.ownership_mode =ₛ "fallback-unclaimed-primary")
      then false
      else length (primary_owners agents path) == 0
