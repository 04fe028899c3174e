-- ===== src/Engine.antt =====
-- internal/engine: the dependency graph of the steps and their execution.
pub mod Dag
pub mod Goto
pub mod Scheduler
pub mod Node
pub mod TestCase
pub mod Execute
pub mod Workflow
pub mod Sensitive
