-- ===== src/Evidence.antt =====
-- .agents/runtime/validation-evidence.mjs: the receipts of the runtime for the commands that a brief
-- requires. The runner is a parameter: its exit code, if any, and whether the time ran out, with
-- the text of the evidence; the check of the commands' form (validation-command.mjs) is left out.
pub mod Receipts
use agentic_harness.Base.{
  ℕ, String, Bool, true, false, not, ◌&&◌, Option, none, some, List, [], ◌∷◌, ◌++◌, map, keep,
  unique, elem, is_blank, ◌==◌, ◌=ₛ◌, if◌then◌else◌,
}
use agentic_harness.Completion.{Validation, TaskBrief, Handoff}

pub record RunResult : Type 0 where
  pub exit_code : Option ℕ
  pub timed_out : Bool
  pub evidence : String

abbrev pub is_zero : Option ℕ → Bool
is_zero none = false
is_zero (some n) = n == 0

abbrev pub has_passed : RunResult → Bool
has_passed r = not r.timed_out && is_zero r.exit_code

-- A final blocking entry of a required command.
unfoldable pub is_claim : List String → Validation → Bool
is_claim required v = elem v.command required && v.phase =ₛ "final" && v.blocking

abbrev pub is_passed_receipt : Validation → Bool
is_passed_receipt v =
    v.authority =ₛ "runtime"
    && v.phase =ₛ "final"
    && v.blocking
    && v.result =ₛ "passed"
    && not (is_blank v.evidence)

-- `missingRequiredValidationCommands`
unfoldable pub missing_commands : TaskBrief → Handoff → List String
missing_commands brief h =
    let passed = map (λ v. v.command) (keep is_passed_receipt h.validation) in
    keep (λ c. not (elem c passed)) (unique brief.validation)

module _ (runner : String → RunResult) where
  unfoldable pub receipt : String → Validation
  receipt command = record {
    command = command;
    phase = "final";
    blocking = true;
    authority = "runtime";
    result = if has_passed (runner command) then "passed" else "failed";
    evidence = (runner command).evidence;
  }

  abbrev pub receipts_for : List String → List Validation → List Validation
  receipts_for [] validations = validations
  receipts_for (c ∷ cs) validations =
      keep (λ v. not (is_claim (c ∷ cs) v)) validations ++ map receipt (c ∷ cs)

  -- The validations of `synthesizeRequiredValidationEvidence`.
  unfoldable pub synthesize : TaskBrief → Handoff → List Validation
  unfolding is_claim receipt
  synthesize brief h =
      if h.status =ₛ "complete"
      then receipts_for (unique brief.validation) h.validation
      else h.validation
