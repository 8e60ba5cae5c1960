-- ===== src/Gateway.antt =====
-- apps/docker-gateway/fence-store.mjs: the check of a capability against the task's row. The query's
-- result is a parameter: the store cannot be reached, has no row, or gives one.
pub mod Capability
use Prim.Native.String.{◌++◌}
use agentic_harness.Base.{
  ℕ, String, Bool, true, false, not, ◌&&◌, ◌||◌, Option, none, some, leb, ◌==◌, ◌=ₛ◌, is_truthy,
  if◌then◌else◌, List, [], ◌∷◌,
}

-- `show` is `String(number)`; `hmac secret text` is the hexadecimal HMAC-SHA256 of the text, `nul`
-- the text of the byte 0, and `parse` is `Date.parse` of a finite date.
pub record Crypto : Type 0 where
  pub hmac : String → String → String
  pub nul : String
  pub show : ℕ → String
  pub parse : String → Option ℕ

pub record RequestFence : Type 0 where
  pub run_id : String
  pub task_id : String
  pub attempt : ℕ
  pub dispatch_generation : ℕ
  pub fencing_token : ℕ
  pub lease_owner : String

pub record Request : Type 0 where
  pub execution_fence : Option RequestFence
  pub capability : String

-- The task, the status of its run, and the fingerprint of the newest checkpoint that matches.
pub record AuthorityRow : Type 0 where
  pub run_status : String
  pub status : String
  pub attempt : ℕ
  pub dispatch_generation : ℕ
  pub fencing_token : ℕ
  pub lease_owner : String
  pub lease_expires_at : String
  pub fingerprint : Option String

pub data QueryResult : Type 0 where
  unavailable no_row : QueryResult
  found : AuthorityRow → QueryResult

pub data Verdict : Type 0 where
  hold : String → Verdict
  verified : Verdict

abbrev joined : String → List String → String
joined nul [] = ""
joined nul (x ∷ xs) = x ++ (nul ++ joined nul xs)

abbrev pub matches_fence : AuthorityRow → RequestFence → Bool
matches_fence row f =
    row.attempt == f.attempt
    && row.dispatch_generation == f.dispatch_generation
    && row.fencing_token == f.fencing_token
    && row.lease_owner =ₛ f.lease_owner

-- `row.fingerprint !== proof` of a fingerprint that may be null.
abbrev pub has_fingerprint : Option String → String → Bool
has_fingerprint none proof = false
has_fingerprint (some p) proof = p =ₛ proof

-- The lease has no valid date or is over; the current time is valid.
abbrev pub lease_over : Option ℕ → ℕ → Bool
lease_over none now = true
lease_over (some expires) now = leb expires now

module _ (crypto : Crypto) (secret : String) where
  unfoldable pub capability_proof : String → RequestFence → String
  capability_proof capability f =
      let values =
        f.run_id
        ∷ f.task_id
        ∷ crypto.show f.attempt
        ∷ crypto.show f.dispatch_generation
        ∷ crypto.show f.fencing_token
        ∷ f.lease_owner
        ∷ capability
        ∷ [] in
      "hmac-sha256:" ++ crypto.hmac secret (joined crypto.nul values)

  unfoldable pub verify_row : String → RequestFence → ℕ → AuthorityRow → Verdict
  unfolding capability_proof
  verify_row capability f now row =
      if not (row.run_status =ₛ "running") || not (row.status =ₛ "running")
      then hold "docker_gateway_fence_not_running"
      else if not (matches_fence row f)
      then hold "docker_gateway_fence_identity_mismatch"
      else if lease_over (crypto.parse row.lease_expires_at) now
      then hold "docker_gateway_fence_expired"
      else if not (has_fingerprint row.fingerprint (capability_proof capability f))
      then hold "docker_gateway_capability_mismatch"
      else verified

  abbrev pub verify_found : String → RequestFence → ℕ → QueryResult → Verdict
  verify_found capability f now unavailable = hold "docker_gateway_capability_store_unavailable"
  verify_found capability f now no_row = hold "docker_gateway_fence_task_missing"
  verify_found capability f now (found row) = verify_row capability f now row

  abbrev pub verify_fence :
      String → Option RequestFence → ℕ → (RequestFence → QueryResult) → Verdict
  verify_fence capability none now query = hold "docker_gateway_capability_missing"
  verify_fence capability (some f) now query =
      if is_truthy capability
      then verify_found capability f now (query f)
      else hold "docker_gateway_capability_missing"

  -- `verifyCapability`
  unfoldable pub verify_capability : Request → ℕ → (RequestFence → QueryResult) → Verdict
  unfolding verify_row
  verify_capability request now query =
      verify_fence request.capability request.execution_fence now query
