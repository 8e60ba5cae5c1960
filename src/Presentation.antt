-- ===== src/Presentation.antt =====
-- .agents/runtime/presentation-plane.mjs: `RuntimePresentationService`, which projects the runs that are
-- notified, a few at a time. A set is the list of its elements in the order of their insertion;
-- `started` lists the calls of `project` in the order in which they are queued, and `waiters` counts the promises of `idle` that are open.
pub mod Steps
pub mod Soundness
pub mod Projection
pub mod Draining
use agentic_harness.Base.{
  ℕ, ◌+◌, String, Bool, true, false, not, ◌&&◌, Option, none, some, List, [], ◌∷◌, ◌++◌, elem, keep,
  length, ltb, ◌==◌, ◌=ₛ◌, trim, is_truthy, min, max, or_else, if◌then◌else◌,
}

pub record Service : Type 0 where
  pub pending : List String
  pub active : List String
  pub dirty : List String
  pub errors : List String
  pub started : List String
  pub scheduled : Bool
  pub stopped : Bool
  pub waiters : ℕ

-- `Math.max(1, Math.min(8, Number(maxParallel) || 2))`, where `Number(…)` is a whole number.
unfoldable pub parallel_limit : Option ℕ → ℕ
parallel_limit n = max 1 (min 8 (if or_else n 0 == 0 then 2 else or_else n 0))

-- `set.add(x)` and `set.delete(x)`
abbrev pub add_to : String → List String → List String
add_to x xs = if elem x xs then xs else xs ++ x ∷ []

abbrev pub drop_from : String → List String → List String
drop_from x xs = keep (λ y. not (y =ₛ x)) xs

abbrev pub is_empty : List String → Bool
is_empty [] = true
is_empty (_ ∷ _) = false

abbrev pub is_idle : Service → Bool
is_idle s = not s.scheduled && is_empty s.pending && is_empty s.active

-- `resolveIdleIfReady`
unfoldable pub resolve_idle : Service → Service
resolve_idle s = if is_idle s then record s { waiters = 0 } else s

-- `schedule`; the microtask that it queues is the step `fire`.
unfoldable pub schedule : Service → Service
schedule s = if not s.scheduled && not s.stopped then record s { scheduled = true } else s

-- `notify`: what it returns, or `none` where it throws.
unfoldable pub notify : String → Service → Option Bool × Service
unfolding schedule trim
notify raw s =
    let run_id = trim raw in
    if s.stopped then (some false, s) else if not (is_truthy run_id) then (none, s) else (
      some true,
      schedule (
          if elem run_id s.active
          then record s { dirty = add_to run_id s.dirty }
          else record s { pending = add_to run_id s.pending }),
    )

-- The first writes of the `finally` handler of a projection.
unfoldable pub release_run : String → Service → Service
release_run run_id s = record s {
  active = drop_from run_id s.active;
  dirty = drop_from run_id s.dirty;
  pending = if elem run_id s.dirty && not s.stopped then add_to run_id s.pending else s.pending;
}

module _ (limit : ℕ) where
  -- The `while` loop of `pump`, on the runs that are pending.
  unfoldable pub start_runs : List String → Service → Service
  start_runs [] s = record s { pending = [] }
  start_runs (run_id ∷ rest) s =
      let started =
        start_runs rest
          (record s { active = add_to run_id s.active; started = s.started ++ run_id ∷ [] }) in
      if ltb (length s.active) limit then started else record s { pending = run_id ∷ rest }

  unfoldable pub pump : Service → Service
  unfolding start_runs resolve_idle
  pump s = if s.stopped then resolve_idle s else resolve_idle (start_runs s.pending s)

  -- The microtask.
  unfoldable pub fire : Service → Service
  unfolding pump
  fire s = pump (record s { scheduled = false })

  unfoldable pub settle : String → Service → Service
  unfolding release_run pump resolve_idle
  settle run_id s = resolve_idle (pump (release_run run_id s))

-- A projection that has failed, and one that has succeeded.
unfoldable pub fail_run : String → Service → Service
fail_run run_id s = record s { errors = add_to run_id s.errors }

unfoldable pub clear_run : String → Service → Service
clear_run run_id s = record s { errors = drop_from run_id s.errors }

-- `idle`
unfoldable pub await_idle : Service → Service
await_idle s = if is_idle s then s else record s { waiters = s.waiters + 1 }

unfoldable pub stop : Service → Service
unfolding resolve_idle
stop s = resolve_idle (record s { stopped = true; pending = []; dirty = [] })
