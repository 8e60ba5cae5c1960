-- ===== src/Lib.antt =====
-- The agent harness runs a request as a graph of tasks: a plan is stored as a run with tasks, a
-- scheduler dispatches the tasks that are ready, workers execute them under leases, their handoffs
-- pass a completion gate, failures are retried under a policy, and the session that asked is woken
-- when the run has ended.
--
-- The parts, and the files that model them:
--   Rows, Store and its children: .agents/runtime/in-memory-test-store.mjs, the orchestration store
--     with the operations of the production store (createRun, addTasks, replacePlan,
--     applyBootstrapPlanRefinement, updateRun, updateTask, touchTask, event, eventOnce,
--     recordProgressNotificationReceipt, registerContinuation, cancelContinuation,
--     materializeContinuationWake, repairTerminalContinuationWakes). The maps are association lists, and an operation that may
--     throw is a function from a store to a result and a store, so that what was written before a
--     throw stays written.
--   RunInvariants: .agents/runtime/run-invariants.mjs, the guard that updateRun applies to a patch.
--   Continuation: .agents/runtime/continuation.mjs, the wake events, effect keys and prompts.
--   Retry: .agents/runtime/retry-efficiency.mjs, how a failure is retried and after which delay.
--   Graph: the search for cycles by degrees that policy-engine.mjs (cyclicReviewStages) and
--     bootstrap-review-dependencies.mjs write out each; Graph.Acyclic says what it finds.
--   Policy: .agents/runtime/policy-engine.mjs, the decisions on plans, dispatch, retry, compilation,
--     promotion and reuse; evaluateRetry takes its details from Retry, evaluatePlan searches by Graph.
--   Contracts: .agents/runtime/event-driven-contracts.mjs, message envelopes and dependencies.
--   Scheduler: .agents/runtime/event-driven-reconciler.mjs, the selection of ready tasks, whose
--     dispatch asks Policy, and the cascade of failed dependencies over the Store.
--   Compiler and its children: .agents/runtime/dag-compiler.mjs with acceptance-criteria.mjs and the
--     checks of validation-command.mjs, how the plan of the technical lead is inspected and compiled
--     to the tasks of the run (canonicalizeImplementationPlanAcceptanceCriteria,
--     inspectImplementationPlan, collectCycleIssues, compileImplementationDag).
--   Presentation: .agents/runtime/presentation-plane.mjs, the service that projects the runs that are
--     notified (notify, schedule, pump, idle, stop); Presentation.Steps orders its steps.
--   Completion: .agents/runtime/completion-gate.mjs, the violations of a handoff.
--   Evidence: .agents/runtime/validation-evidence.mjs, the receipts that Completion asks for.
--   Fence: packages/harness-contracts/src/execution-fence.mjs and .agents/runtime/behavior-fence.mjs,
--     the fence of an execution and its observation before and after a behaviour.
--   Gateway: apps/docker-gateway/fence-store.mjs, the check of a capability.
--   Watchdog: scripts/qualification/lib/continuation-watchdog.mjs, verdicts on deliveries.
--   Liveness: .agents/runtime/execution-liveness.mjs, the timeouts of executions.
--   Parking: .agents/runtime/parked-orchestrator-guard.mjs and execution-plane-readiness.mjs.
--   Topology: .agents/runtime/agent-topology.mjs, the roles of agents.
--   Review: .agents/runtime/review-contract.mjs and bootstrap-review-dependencies.mjs, whose check for
--     cycles searches by Graph.
--   Revision: .agents/runtime/review-contract.mjs, the revision that a review attests.
--   Routing: .agents/runtime/model-router.mjs, the effort and the steps of a route.
--   Host has the hash, identifiers and clock that the store takes; Base has the shared helpers;
--   Examples applies the theorems at concrete inputs.
--
-- Bounds: numbers are natural numbers, times are milliseconds since 1970. The jitter of a delay is a
-- draw of a fraction with twelve decimals. Loops without a structural end take fuel: the search for
-- cycles one unit for each stage, since each round takes another stage, and the cascade one for each
-- task that waits, since each round that is followed by another one cancels one. The search by depth
-- among work items takes one unit for each item on its stack, which holds no item twice.
--
-- Not modelled: the PostgreSQL store and the message broker, processes, files, Git and HTTP, which
-- are input and output around these decisions; regular expressions, schema checks, dates and the case
-- of letters are parameters; the model requirements and command specifications of compiled tasks.
pub mod Base
pub mod Host
pub mod Rows
pub mod RunInvariants
pub mod Continuation
pub mod Store
pub mod Retry
pub mod Policy
pub mod Contracts
pub mod Completion
pub mod Fence
pub mod Gateway
pub mod Watchdog
pub mod Liveness
pub mod Parking
pub mod Topology
pub mod Graph
pub mod Presentation
pub mod Compiler
pub mod Review
pub mod Revision
pub mod Routing
pub mod Evidence
pub mod Examples
pub mod Scheduler
