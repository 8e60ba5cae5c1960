-- ===== src/RunInvariants.antt =====
-- .agents/runtime/run-invariants.mjs: the statuses of a run, and the guard that a patch of a
-- terminal run passes.
pub mod Guard
use agentic_harness.Base.{
  String, Bool, Option, none, some, List, [], ◌∷◌, elem, ◌=ₛ◌, opt_eq, if◌then◌else◌,
}
use agentic_harness.Rows.{Run, RunPatch}

abbrev pub terminal_run_statuses : List String
terminal_run_statuses = "closed" ∷ "failed" ∷ "blocked" ∷ "cancelled" ∷ []

abbrev pub active_run_statuses : List String
active_run_statuses = "routed" ∷ "running" ∷ []

unfoldable pub is_terminal_run_status : String → Bool
is_terminal_run_status status = elem status terminal_run_statuses

unfoldable pub is_active_run_status : String → Bool
is_active_run_status status = elem status active_run_statuses

pub data PatchError : Type 0 where
  terminal_transition_forbidden : String → String → String → PatchError
  terminal_occurrence_mutation_forbidden : String → PatchError

-- The second test, on `completed_at`.
unfoldable pub check_occurrence : Run → RunPatch → Option PatchError
check_occurrence current patch = elim patch.completed_at [
  | none ↦ none
  | some next ↦
      if opt_eq next current.completed_at
      then none
      else some (terminal_occurrence_mutation_forbidden current.run_id)
]

-- `none` where the guard returns, `some error` where it throws.
unfoldable pub assert_terminal_run_patch : Run → RunPatch → Option PatchError
unfolding check_occurrence
assert_terminal_run_patch current patch =
    if is_terminal_run_status current.status
    then elim patch.status [
      | none ↦ check_occurrence current patch
      | some next ↦
          if next =ₛ current.status
          then check_occurrence current patch
          else some (terminal_transition_forbidden current.run_id current.status next)
    ]
    else none
