-- ===== src/Store.antt =====
-- .agents/runtime/in-memory-test-store.mjs: the orchestration store that keeps its rows in memory.
-- `Store/Monad` has the state and the errors, `Store/Runs` the runs and tasks, `Store/Wakes` the
-- continuations, and the other children what is proved of them.
pub mod Monad
pub mod Events
pub mod Runs
pub mod Refinement
pub mod Wakes
pub mod Registration
pub mod Atomicity
pub mod Extends
pub mod Operations
pub mod Changes
pub mod History
pub mod Idempotence
pub mod Versions
pub mod Cancelling
