-- ===== src/Store/Monad.antt =====
-- Methods that change the store and may throw: what was written before a throw stays written.
use agentic_harness.Base.{String, ℕ, List}
use agentic_harness.Rows.{Run, Task, Event, Continuation, Delivery}
use agentic_harness.Base.{Dict}
use agentic_harness.RunInvariants.{PatchError}

-- The fields of `InMemoryTestOrchestrationStore`.
pub record Store : Type 0 where
  pub runs : Dict Run
  pub tasks : Dict Task
  pub events : List Event
  pub event_sequence : ℕ
  pub continuations : Dict Continuation
  pub deliveries : Dict Delivery

pub data StoreError : Type 0 where
  run_not_found : String → StoreError
  plan_version_conflict : String → ℕ → ℕ → StoreError
  run_version_conflict : String → ℕ → ℕ → StoreError
  task_version_conflict : String → ℕ → ℕ → StoreError
  refinement_task_missing : String → StoreError
  refinement_removal_unsafe : String → String → StoreError
  refinement_already_started : String → String → StoreError
  wake_event_invalid : StoreError
  prompt_identity_required : StoreError
  rebind_not_allowed : String → StoreError
  completed_at_missing : String → StoreError
  session_adapter_unknown : String → StoreError
  patch_refused : PatchError → StoreError

pub data Result {ℓ} (A : Type ℓ) : Type ℓ where
  ok : A → Result A
  threw : StoreError → Result A

abbrev pub Action : Type 0 → Type 0
Action A = Store → Result A × Store

abbrev pub pure : {A : Type 0} → A → Action A
pure a s = (ok a, s)

abbrev pub throw : {A : Type 0} → StoreError → Action A
throw e s = (threw e, s)

abbrev pub resume : {A B : Type 0} → Result A → (A → Action B) → Action B
resume (ok a) f s = f a s
resume (threw e) f s = (threw e, s)

infixl 5 ◌>>=◌ ◌>>◌
abbrev pub ◌>>=◌ : {A B : Type 0} → Action A → (A → Action B) → Action B
◌>>=◌ m f s = resume (m s).0 f (m s).1

abbrev pub ◌>>◌ : {A B : Type 0} → Action A → Action B → Action B
m >> n = m >>= λ _. n

-- A write that cannot throw.
abbrev pub modify : (Store → Store) → Action (Unit {0})
modify f s = (ok tt, f s)

abbrev pub gets : {A : Type 0} → (Store → A) → Action A
gets f s = (ok (f s), s)
