-- ===== src/Examples.antt =====
-- Concrete inputs, at which the theorems apply.
mod Data
mod StoreRuns
mod Decisions
mod Executions
mod Reviews
mod Graphs
mod Compilation
mod Presentations
