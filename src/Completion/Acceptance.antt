-- ===== src/Completion/Acceptance.antt =====
-- .agents/runtime/completion-gate.mjs: what an accepted handoff proves.
use agentic_harness.Base.{
  String, ◌≡◌, refl, subst, ◌↔◌, Bool, true, false, List, [], ◌∷◌, ◌++◌, map, any, keep, unique,
  is_blank, ◌=ₛ◌, arith, All,
}
use agentic_harness.Completion.{
  Criterion, CriterionResult, Validation, TaskBrief, Handoff, Violation, criterion_violations,
  results_of, required_from, required_criteria, required_criterion_violations, is_runtime,
  contradictory, receipt_violations, conflict_violations, command_violations, entries_of,
  commands_from, final_validation, sdd_changes_requested, sdd_blocked, sdd_required_deltas_open,
  blocking_residual_risk, required_follow_up_open, is_stray, required_validation_violations,
  has_decision, has_deltas, is_accepted, Prefixes, completion_violations, outcome_of,
  evaluate_completion, add_if,
}

append_empty {ℓ} : {A : Type ℓ} (xs ys : List A) → (xs ++ ys ≡ []) ↔ (xs ≡ []) × (ys ≡ [])
append_empty [] ys = (λ h. (refl, h), λ h. h.1)
append_empty (x ∷ xs) ys = (λ h. absurd (cc h), λ h. absurd (cc h.0))

map_empty {ℓ κ} : {A : Type ℓ} {B : Type κ} (f : A → B) (xs : List A) → (map f xs ≡ []) ↔ (xs ≡ [])
map_empty f [] = (λ h. refl, λ h. refl)
map_empty f (x ∷ xs) = (λ h. absurd (cc h), λ h. absurd (cc h))

the_same {ℓ} : {A : Type ℓ} (x y : A) → y ∷ [] ≡ x ∷ [] → x ≡ y
the_same x y e = cc

-- A criterion with exactly one result, which has passed with evidence.
abbrev pub IsProven : List CriterionResult → Criterion → Type 0
IsProven results c =
    (r : CriterionResult) × (results_of c.id results ≡ r ∷ [])
    × ((r.result =ₛ "passed") ≡ true)
    × (is_blank r.evidence ≡ false)

criterion_iff :
    (id : String) (rs : List CriterionResult)
    → (criterion_violations id rs ≡ []) ↔ (
        (r : CriterionResult) × (rs ≡ r ∷ [])
        × ((r.result =ₛ "passed") ≡ true)
        × (is_blank r.evidence ≡ false))
criterion_iff id [] = (λ h. absurd (cc h), λ h. absurd (cc h.1))
criterion_iff id (r ∷ []) =
    (λ h. (r, refl, ground arith, ground arith), λ (q, e, passed, shown). ground arith)
criterion_iff id (r ∷ q ∷ rest) = (λ h. absurd (cc h), λ h. absurd (cc h.1))

criteria_iff :
    (results : List CriterionResult) (cs : List Criterion)
    → (required_from results cs ≡ []) ↔ All (IsProven results) cs
criteria_iff results [] = (λ h. tt, λ h. refl)
criteria_iff results (c ∷ cs) =
    let here = criterion_iff c.id (results_of c.id results) in
    let rest = criteria_iff results cs in
    let split =
      append_empty (criterion_violations c.id (results_of c.id results))
        (required_from results cs) in
    (λ h. (here.0 (split.0 h).0, rest.0 (split.0 h).1), λ h. split.1 (here.1 h.0, rest.1 h.1))

-- A required command with exactly one final blocking entry of the runtime, which has passed with
-- evidence and which no other final blocking entry contradicts.
abbrev pub IsValidated : List Validation → String → Type 0
IsValidated vs command =
    (r : Validation) × (keep is_runtime (entries_of command vs) ≡ r ∷ [])
    × ((r.result =ₛ "passed") ≡ true)
    × (is_blank r.evidence ≡ false)
    × (contradictory (entries_of command vs) ≡ [])

receipt_iff :
    (command : String) (r : Validation) (others : List Validation)
    → (receipt_violations command r ++ conflict_violations command r others ≡ [])
      ↔ (((r.result =ₛ "passed") ≡ true) × (is_blank r.evidence ≡ false) × (others ≡ []))
receipt_iff command r [] = (λ h. ground arith, λ h. ground arith)
receipt_iff command r (v ∷ vs) =
    (λ h. absurd (cc ((append_empty (receipt_violations command r) _).0 h).1), λ h. absurd (cc h.2))

command_iff :
    (command : String) (entries runtime : List Validation)
    → (command_violations command entries runtime ≡ []) ↔ (
        (r : Validation) × (runtime ≡ r ∷ [])
        × ((r.result =ₛ "passed") ≡ true)
        × (is_blank r.evidence ≡ false)
        × (contradictory entries ≡ []))
command_iff command entries [] = (λ h. absurd (cc h), λ h. absurd (cc h.1))
command_iff command entries (r ∷ []) =
    let receipt = receipt_iff command r (contradictory entries) in
    (
      λ h. (r, refl, (receipt.0 h).0, (receipt.0 h).1, (receipt.0 h).2),
      λ (q, e, passed, shown, alone).
          let same = the_same q r e in
          receipt.1 (
            subst (λ v. (v.result =ₛ "passed") ≡ true) same passed,
            subst (λ v. is_blank v.evidence ≡ false) same shown,
            alone,
          ),
    )
command_iff command entries (r ∷ q ∷ rest) = (λ h. absurd (cc h), λ h. absurd (cc h.1))

commands_iff :
    (vs : List Validation) (commands : List String)
    → (commands_from vs commands ≡ []) ↔ All (IsValidated vs) commands
commands_iff vs [] = (λ h. tt, λ h. refl)
commands_iff vs (c ∷ cs) =
    let found = entries_of c vs in
    let here = command_iff c found (keep is_runtime found) in
    let rest = commands_iff vs cs in
    let split =
      append_empty (command_violations c found (keep is_runtime found)) (commands_from vs cs) in
    (λ h. (here.0 (split.0 h).0, rest.0 (split.0 h).1), λ h. split.1 (here.1 h.0, rest.1 h.1))

-- The five flags of the handoff.
flags_iff :
    (a b c d e : Bool)
    → (add_if a sdd_changes_requested
          ++ add_if b sdd_blocked
          ++ add_if c sdd_required_deltas_open
          ++ add_if d blocking_residual_risk
          ++ add_if e required_follow_up_open
        ≡ [])
      ↔ (a ≡ false) × (b ≡ false) × (c ≡ false) × (d ≡ false) × (e ≡ false)
flags_iff a b c d e = (λ h. ground arith, λ h. ground arith)

accepted_iff :
    (status : String) (vs : List Violation)
    → (is_accepted (outcome_of status vs) ≡ true) ↔ ((status =ₛ "complete") ≡ true) × (vs ≡ [])
accepted_iff status [] = (λ h. ground arith, λ h. ground arith)
accepted_iff status (v ∷ vs) = (λ h. ground arith, λ h. absurd (cc h.1))

module _ (prefixes : Prefixes) (brief : TaskBrief) (h : Handoff) where
  -- What a completion must prove.
  abbrev pub IsComplete : Type 0
  IsComplete =
      ((h.status =ₛ "complete") ≡ true)
      × All (IsProven h.criterion_results) (required_criteria brief)
      × All (IsValidated h.validation) (unique brief.validation)
      × (keep (is_stray (unique brief.validation)) h.validation ≡ [])
      × (has_decision "changes_requested" h.sdd_review ≡ false)
      × (has_decision "blocked" h.sdd_review ≡ false)
      × (has_deltas h.sdd_review ≡ false)
      × (any prefixes.is_blocking_risk h.residual_risks ≡ false)
      × (any prefixes.is_required_follow_up h.follow_ups ≡ false)

  validations_iff :
      (required_validation_violations brief h ≡ [])
      ↔ All (IsValidated h.validation) (unique brief.validation)
        × (keep (is_stray (unique brief.validation)) h.validation ≡ [])
  unfolding required_validation_violations
  validations_iff =
      let commands = commands_iff h.validation (unique brief.validation) in
      let stray = keep (is_stray (unique brief.validation)) h.validation in
      let strays = map_empty (λ v. final_validation v.result v.command) stray in
      let split = append_empty (commands_from h.validation (unique brief.validation)) _ in
      (
        λ e. (commands.0 (split.0 e).0, strays.0 (split.0 e).1),
        λ e. split.1 (commands.1 e.0, strays.1 e.1),
      )

  -- A handoff is accepted exactly when it says that it is complete; each blocking criterion of the
  -- brief has one result, which has passed with evidence; each required command has one final
  -- blocking receipt of the runtime, which has passed with evidence and which no other final blocking
  -- entry contradicts; every other final blocking validation has passed; and no requested change,
  -- block, required delta, blocking risk or required follow-up is open.
  pub evaluate_completion_iff :
      (is_accepted (evaluate_completion prefixes brief h) ≡ true) ↔ IsComplete
  unfolding evaluate_completion completion_violations required_criterion_violations
  evaluate_completion_iff =
      let outcome = accepted_iff h.status (completion_violations prefixes brief h) in
      let criteria = criteria_iff h.criterion_results (required_criteria brief) in
      let flags =
        flags_iff (has_decision "changes_requested" h.sdd_review)
          (has_decision "blocked" h.sdd_review) (has_deltas h.sdd_review)
          (any prefixes.is_blocking_risk h.residual_risks)
          (any prefixes.is_required_follow_up h.follow_ups) in
      let first = append_empty (required_criterion_violations brief h) _ in
      let second = append_empty (required_validation_violations brief h) _ in
      (
        λ ok.
            let (complete, e1) = outcome.0 ok in
            let (c, e2) = first.0 e1 in
            let (v, e3) = second.0 e2 in
            let (vs, strays) = validations_iff.0 v in
            let (x1, x2, x3, x4, x5) = flags.0 e3 in
            (complete, criteria.0 c, vs, strays, x1, x2, x3, x4, x5),
        λ (complete, c, vs, strays, x1, x2, x3, x4, x5).
            let open_points =
              second.1 (validations_iff.1 (vs, strays), flags.1 (x1, x2, x3, x4, x5)) in
            outcome.1 (complete, first.1 (criteria.1 c, open_points)),
      )
