-- ===== src/Revision/Authority.antt =====
-- .agents/runtime/review-contract.mjs: which artifacts decide a revision, and which values it takes.
use agentic_harness.Base.{ℕ, ◌≤◌, Option, none, some}
use agentic_harness.Revision.{Found, ambiguous, settled}

-- No value, or one that is at least 1.
abbrev pub IsPositive : Option ℕ → Type 0
IsPositive none = Unit
IsPositive (some n) = 1 ≤ n

-- An error, or a value that is fine.
abbrev pub IsFine : (Option ℕ → Type 0) → Found → Type 0
IsFine P (ambiguous l) = Unit
IsFine P (settled v) = P v

abbrev pub IsRevision : Option ℕ → Type 0
IsRevision none = ⊥
IsRevision (some n) = 1 ≤ n
