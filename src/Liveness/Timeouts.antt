-- ===== src/Liveness/Timeouts.antt =====
-- .agents/runtime/execution-liveness.mjs: the order of the timeouts.
use agentic_harness.Base.{
  ℕ, ◌≤◌, ◌<◌, String, ◌≡◌, refl, Bool, true, false, ◌||◌, elem, Option, none, some, arith, min,
  leb, ltb, if◌then◌else◌, Bool-cases, inl, inr,
}
use agentic_harness.Liveness.{
  LivenessPolicy, Quotient, bounded_positive, governance_stages, below, soft_cap,
  resolve_liveness_policy,
}

-- A limit of at most `cap` that ends before the hard timeout, or none where the hard timeout is
-- itself at most `cap`.
abbrev pub IsLimit : ℕ → ℕ → Option ℕ → Type 0
IsLimit cap hard none = hard ≤ cap
IsLimit cap hard (some t) = (t ≡ cap) × (t < hard)

-- The timeouts of a stage of governance, with its limit of soft time.
abbrev pub IsWatched : ℕ → LivenessPolicy → Type 0
IsWatched cap p =
    IsLimit cap p.hard_timeout_ms p.soft_timeout_ms
    × IsLimit 720000 p.hard_timeout_ms p.stall_timeout_ms

abbrev pub IsUnwatched : LivenessPolicy → Type 0
IsUnwatched p = (p.soft_timeout_ms ≡ none) × (p.stall_timeout_ms ≡ none)

abbrev pub IsTimed : Bool → ℕ → LivenessPolicy → Type 0
IsTimed true cap p = IsWatched cap p
IsTimed false cap p = IsUnwatched p

limited_by :
    (cap limit hard : ℕ)
    → (limit < hard → limit ≡ cap)
    → (hard ≤ limit → hard ≤ cap)
    → IsLimit cap hard (below limit hard)
limited_by cap limit hard short long = elim (Bool-cases (ltb limit hard)) [
  | inl before ↦ rw before (short (ground arith), ground arith)
  | inr after ↦ rw after (long (ground arith))
]

limited_soft :
    (attempt hard : ℕ)
    → IsLimit
        (if leb attempt 1 then 1800000 else 2700000)
        hard
        (below (min hard (soft_cap attempt)) hard)
limited_soft attempt hard =
    limited_by _ (min hard (soft_cap attempt)) hard (λ h. ground arith) (λ h. ground arith)

limited_stall :
    (attempt hard : ℕ) → IsLimit 720000 hard (below (min (min hard (soft_cap attempt)) 720000) hard)
limited_stall attempt hard =
    limited_by _ (min (min hard (soft_cap attempt)) 720000) hard (λ h. ground arith)
      (λ h. ground arith)

abbrev pub is_governance : (String → Bool) → String → Bool
is_governance is_review stage = elem stage governance_stages || is_review stage

-- Every execution has the hard timeout that was asked for, rounded, where it is a positive number, or
-- one hour. In a stage of governance the soft limit is 30 minutes on the first attempt and 45 minutes
-- on later ones, and the stall limit is 12 minutes; each is set exactly where the hard timeout is
-- longer. Outside of governance neither is set.
pub resolve_liveness_policy-nested :
    (is_review : String → Bool) (stage : String) (attempt : ℕ) (hard : Option Quotient)
    → let p = resolve_liveness_policy is_review stage attempt hard in
      (p.hard_timeout_ms ≡ bounded_positive hard 3600000)
      × IsTimed (is_governance is_review stage) (if leb attempt 1 then 1800000 else 2700000) p
unfolding resolve_liveness_policy
resolve_liveness_policy-nested is_review stage attempt hard =
    elim (Bool-cases (is_governance is_review stage)) [
      | inr other ↦ rw (other) (refl, (refl, refl))
      | inl governed ↦ rw (governed) (
        refl,
        (
          limited_soft attempt (bounded_positive hard 3600000),
          limited_stall attempt (bounded_positive hard 3600000),
        ),
      )
    ]
