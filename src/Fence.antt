-- ===== src/Fence.antt =====
-- packages/harness-contracts/src/execution-fence.mjs and .agents/runtime/behavior-fence.mjs: the fence
-- of a task's execution, its observation, and the run of a behaviour between two observations. The
-- row is what `store.getTask` gives; `assertKeys` is the type of the record.
pub mod Exclusion
use Prim.Native.Char.{code}
use Prim.Native.String.{◌++◌}
use agentic_harness.Base.{
  ℕ, ◌+◌, String, Bool, true, false, not, ◌&&◌, ◌||◌, Option, none, some, ltb, leb, ◌==◌, ◌=ₛ◌,
  is_truthy, or_else, if◌then◌else◌,
}
use agentic_harness.Host.{Host}

abbrev pub task_execution_fence_version : String
task_execution_fence_version = "task-execution-fence/v1"

-- `Number.MAX_SAFE_INTEGER`
abbrev pub max_safe_integer : ℕ
max_safe_integer = 9007199254740991

-- The dates of the host: the test of RFC3339_TIMESTAMP, `Date.parse` of a finite date at or after
-- 1970, and `new Date(ms).toISOString()`.
pub record Dates : Type 0 where
  pub is_timestamp : String → Bool
  pub parse : String → Option ℕ
  pub to_iso : ℕ → String

pub record Fence : Type 0 where
  pub schema_version : String
  pub run_id : String
  pub task_id : String
  pub attempt : ℕ
  pub dispatch_generation : ℕ
  pub fencing_token : ℕ
  pub lease_owner : String
  pub lease_expires_at : String
  pub observed_at : String

-- The character test of `text`.
unfoldable pub has_control : String → Bool
has_control String.[] = false
has_control (String.◌∷◌ c s) = leb (code c) 31 || code c == 127 || has_control s

unfoldable pub is_text : String → Bool
unfolding has_control
is_text s = is_truthy s && not (has_control s)

unfoldable pub is_positive : ℕ → Bool
is_positive n = leb n max_safe_integer && not (ltb n 1)

pub data FenceResult : Type 0 where
  refused : String → FenceResult
  checked : Fence → FenceResult

module _ (dates : Dates) where
  -- `iso(value)`; `none` where it fails.
  unfoldable pub iso : String → Option String
  iso value =
      if dates.is_timestamp value
      then elim (dates.parse value) [ none ↦ none | some t ↦ some (dates.to_iso t) ]
      else none

  abbrev with_dates : Fence → Option String → Option String → FenceResult
  with_dates f (some lease) (some observed) =
      checked (record f { lease_expires_at = lease; observed_at = observed })
  with_dates f _ _ = refused "task_execution_fence_invalid"

  unfoldable pub validate_fence : Fence → FenceResult
  unfolding iso is_text is_positive
  validate_fence f =
      if f.schema_version =ₛ task_execution_fence_version
        && is_text f.run_id
        && is_text f.task_id
        && is_positive f.attempt
        && is_positive f.dispatch_generation
        && is_positive f.fencing_token
        && is_text f.lease_owner
      then with_dates f (iso f.lease_expires_at) (iso f.observed_at)
      else refused "task_execution_fence_invalid"

  -- `Date.parse(text) <= now`, false where the date is invalid.
  abbrev is_over : Option ℕ → ℕ → Bool
  is_over none now = false
  is_over (some t) now = leb t now

  -- `Date.parse(text) > limit`, false where the date is invalid.
  abbrev is_beyond : Option ℕ → ℕ → Bool
  is_beyond none limit = false
  is_beyond (some t) limit = ltb limit t

  abbrev active_at : ℕ → FenceResult → FenceResult
  active_at now (refused c) = refused c
  active_at now (checked f) =
      if is_over (dates.parse f.lease_expires_at) now
      then refused "task_execution_fence_expired"
      else if is_beyond (dates.parse f.observed_at) (now + 5000)
      then refused "task_execution_fence_observed_in_future"
      else checked f

  unfoldable pub validate_active_fence : Fence → ℕ → FenceResult
  unfolding validate_fence
  validate_active_fence f now = active_at now (validate_fence f)

-- The digest of the identity of a fence that is valid.
unfoldable pub identity_digest : Host → Fence → String
identity_digest host f =
    "sha256:"
    ++ host.sha256 (
        "{\"schemaVersion\":"
        ++ (host.quote f.schema_version
            ++ (",\"runId\":"
                ++ (host.quote f.run_id
                    ++ (",\"taskId\":"
                        ++ (host.quote f.task_id
                            ++ (",\"attempt\":"
                                ++ (host.show f.attempt
                                    ++ (",\"dispatchGeneration\":"
                                        ++ (host.show f.dispatch_generation
                                            ++ (",\"fencingToken\":"
                                                ++ (host.show f.fencing_token
                                                    ++ (",\"leaseOwner\":"
                                                        ++ (host.quote f.lease_owner
                                                            ++ "}"))))))))))))))

-- The task as the store gives it. A missing text is empty.
pub record LeaseRow : Type 0 where
  pub run_id : String
  pub status : String
  pub attempt : ℕ
  pub dispatch_generation : ℕ
  pub fencing_token : ℕ
  pub lease_owner : String
  pub lease_expires_at : String

-- The owner is the empty text where the identity names none.
pub record Identity : Type 0 where
  pub run_id : String
  pub task_id : String
  pub attempt : ℕ
  pub dispatch_generation : ℕ
  pub fencing_token : ℕ
  pub lease_owner : String

-- `threw` where the date of the lease is invalid: `toISOString` throws outside the `try`.
pub data Observation : Type 0 where
  held : String → Observation
  threw : Observation
  active : Fence → String → Observation

abbrev pub same_identity : Identity → LeaseRow → Bool
same_identity i row =
    row.run_id =ₛ i.run_id
    && row.attempt == i.attempt
    && row.dispatch_generation == i.dispatch_generation
    && row.fencing_token == i.fencing_token

pub record Receipt : Type 0 where
  pub status : Option String
  pub code : Option String
  pub executed : Bool

-- The behaviour throws an error with a code or gives a receipt.
pub data Behaviour : Type 0 where
  throws : Option String → Behaviour
  gives : Receipt → Behaviour

abbrev pub receipt_of : Behaviour → Receipt
receipt_of (throws c) = record {
  status = some "HOLD";
  code = some (or_else c "behavior_executor_threw");
  executed = false;
}
receipt_of (gives r) = r

pub record Execution : Type 0 where
  pub status : String
  pub code : String
  pub executed : Bool
  pub fence_verified : Bool

abbrev on_hold : String → Bool → Execution
on_hold c ran = record { status = "HOLD"; code = c; executed = ran; fence_verified = false }

-- `none` where the observation throws.
abbrev pub settle : String → Receipt → Observation → Option Execution
settle digest r threw = none
settle digest r (held c) = some (on_hold "behavior_fence_lost_after_execution" r.executed)
settle digest r (active f d) =
    if not (d =ₛ digest)
    then some (on_hold "behavior_fence_identity_changed" r.executed)
    else some (record {
      status = or_else r.status "HOLD";
      code = or_else r.code "behavior_receipt_missing";
      executed = r.executed;
      fence_verified = true;
    })

-- What the store and the clock give when the behaviour has ended.
pub record Later : Type 0 where
  pub row : Option LeaseRow
  pub now : ℕ

module _ (host : Host) (dates : Dates) where
  abbrev pub observed_as : FenceResult → Observation
  observed_as (refused c) = held c
  observed_as (checked f) = active f (identity_digest host f)

  abbrev pub fence_of : Identity → LeaseRow → ℕ → ℕ → Fence
  fence_of i row expires now = record {
    schema_version = task_execution_fence_version;
    run_id = i.run_id;
    task_id = i.task_id;
    attempt = i.attempt;
    dispatch_generation = i.dispatch_generation;
    fencing_token = i.fencing_token;
    lease_owner = row.lease_owner;
    lease_expires_at = dates.to_iso expires;
    observed_at = dates.to_iso now;
  }

  unfoldable pub observe_lease : Identity → LeaseRow → ℕ → Option ℕ → Observation
  unfolding identity_digest validate_active_fence
  observe_lease i row now none = threw
  observe_lease i row now (some expires) =
      observed_as (validate_active_fence dates (fence_of i row expires now) now)

  -- `lease_owner` is the empty text where none is asked for.
  abbrev observe_row : Identity → String → ℕ → LeaseRow → Observation
  observe_row i lease_owner now row =
      if not (same_identity i row)
      then held "task_execution_fence_identity_mismatch"
      else if not (row.status =ₛ "running")
      then held "task_execution_fence_status_not_running"
      else if not (is_truthy row.lease_owner) || not (is_truthy row.lease_expires_at)
      then held "task_execution_fence_lease_missing"
      else if is_truthy lease_owner && not (row.lease_owner =ₛ lease_owner)
      then held "task_execution_fence_lease_owner_mismatch"
      else observe_lease i row now (dates.parse row.lease_expires_at)

  abbrev observe_found : Identity → String → ℕ → Option LeaseRow → Observation
  observe_found i lease_owner now none = held "task_execution_fence_task_missing"
  observe_found i lease_owner now (some row) = observe_row i lease_owner now row

  -- `observeActiveTaskExecutionFence`, given what the store has.
  unfoldable pub observe_fence : Option LeaseRow → Identity → String → ℕ → Observation
  unfolding observe_lease
  observe_fence row i lease_owner now =
      if not (is_truthy i.run_id) || not (is_truthy i.task_id)
      then held "task_execution_fence_store_or_identity_missing"
      else observe_found i lease_owner now row

  unfoldable pub run_under : Identity → (Fence → Behaviour) → Later → Observation → Option Execution
  unfolding observe_fence
  run_under i behaviour after threw = none
  run_under i behaviour after (held c) = some (on_hold "behavior_fence_not_active" false)
  run_under i behaviour after (active f d) =
      settle d (receipt_of (behaviour f)) (observe_fence after.row i f.lease_owner after.now)

  -- `executeBehaviorUnderTaskFence`; the behaviour is `none` where it is no function.
  unfoldable pub execute_under_fence :
      Identity → Option (Fence → Behaviour) → Later → Later → Option Execution
  unfolding run_under
  execute_under_fence i none before after = some (on_hold "behavior_executor_missing" false)
  execute_under_fence i (some behaviour) before after =
      run_under i behaviour after (observe_fence before.row i i.lease_owner before.now)
