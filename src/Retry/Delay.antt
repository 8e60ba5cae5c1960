-- ===== src/Retry/Delay.antt =====
-- How long a retry waits, and how many repairs an attempt may make.
use agentic_harness.Base.{
  ℕ, zero, suc, ◌+◌, ◌-◌, ◌*◌, ◌≤◌, ◌≡◌, ◌≢◌, refl, true, Option, none, some, List, [], ◌∷◌, arith,
  or_else, min, max, ◌⊎◌, inl, inr, Bool-cases,
}
use native.Mathlib.Nat.{le_trans}
use agentic_harness.Retry.{
  Disposition, same_attempt_repair, true_retry_transient, Failure, retry_disposition, repair_budget,
  parse_retry_after, caps_of, cap_at, cap_for, jitter, delay_under, retry_delay, disposition_from,
  disposition_by, Strategy, strategy_for_failure,
}

mul_le : (a b c : ℕ) → a ≤ b → a * c ≤ b * c
mul_le a b c h = grind arith

jitter-le : (draw cap : ℕ) → jitter draw cap ≤ cap
unfolding jitter
jitter-le draw cap =
    omega (arith, mul_le (min draw 999999999999) 999999999999 (cap + 1) (omega arith))

-- Every cap of the list is at most the bound.
abbrev pub AllAtMost : ℕ → List ℕ → Type 0
AllAtMost bound [] = Unit
AllAtMost bound (c ∷ cs) = (c ≤ bound) × AllAtMost bound cs

cap_at-le : (bound c : ℕ) (cs : List ℕ) (i : ℕ) → AllAtMost bound (c ∷ cs) → cap_at c cs i ≤ bound
cap_at-le bound c [] i h = h.0
cap_at-le bound c (d ∷ ds) zero h = h.0
cap_at-le bound c (d ∷ ds) (suc i) h = cap_at-le bound d ds i h.1

cap_for-le : (bound : ℕ) (cs : List ℕ) (i : ℕ) → AllAtMost bound cs → cap_for cs i ≤ bound
cap_for-le bound [] i h = omega arith
cap_for-le bound (c ∷ cs) i h = cap_at-le bound c cs (i - 1) h

delay_under_bounds :
    (d : Disposition) (local asked bound : ℕ)
    → local ≤ bound
    → (d ≢ true_retry_transient → delay_under d local asked ≡ 0)
      × (d ≡ true_retry_transient → asked ≤ delay_under d local asked)
      × (delay_under d local asked ≤ max bound asked)
unfolding delay_under
delay_under_bounds true_retry_transient local asked bound h =
    (λ other. absurd (other refl), λ _. omega arith, omega arith)
delay_under_bounds _ local asked bound h = (λ _. refl, λ e. absurd (cc e), omega arith)

-- Only a transient failure waits. It waits at least as long as its provider asked for, and no longer
-- than the largest cap where the provider asked for less than that.
pub retry_delay_bounds :
    (f : Failure) (caps : List ℕ) (attempt draw now bound : ℕ)
    → AllAtMost bound (caps_of caps)
    → let delay = retry_delay f caps attempt draw now in
      let asked = or_else (parse_retry_after f.retry_after now) 0 in
      (retry_disposition f ≢ true_retry_transient → delay ≡ 0)
      × (retry_disposition f ≡ true_retry_transient → asked ≤ delay)
      × (delay ≤ max bound asked)
unfolding retry_delay
retry_delay_bounds f caps attempt draw now bound h =
    delay_under_bounds (retry_disposition f) _ _ bound (
      le_trans (jitter-le draw (cap_for (caps_of caps) attempt))
        (cap_for-le bound (caps_of caps) attempt h))

disposition_from-exhausted :
    (f : Failure) (d : Disposition)
    → f.repair_exhausted ≡ true
    → disposition_from f d ≢ same_attempt_repair
unfolding disposition_from
disposition_from-exhausted f same_attempt_repair h = ground arith
disposition_from-exhausted f _ h = ground arith

disposition_by-exhausted :
    (f : Failure) (o : Option Strategy)
    → f.repair_exhausted ≡ true
    → disposition_by f o ≢ same_attempt_repair
unfolding disposition_by
disposition_by-exhausted f none h = λ e. cc e
disposition_by-exhausted f (some s) h = disposition_from-exhausted f s.disposition h

-- A failure whose repairs are used up is never sent to another repair of the same attempt; and the
-- repairs that an attempt may make are none, or 1 to 3.
pub repairs_are_bounded :
    (f : Failure) (configured : Option ℕ)
    → (f.repair_exhausted ≡ true → retry_disposition f ≢ same_attempt_repair)
      × ((repair_budget f configured ≡ 0)
          ⊎ ((1 ≤ repair_budget f configured) × (repair_budget f configured ≤ 3)))
unfolding retry_disposition repair_budget
repairs_are_bounded f configured = (
  λ h. elim (Bool-cases f.retryable) [
    | inr refused ↦ rw refused (λ e. absurd (cc e))
    | inl retryable ↦ rw retryable (disposition_by-exhausted f (strategy_for_failure f) h)
  ],
  ground arith,
)
