-- ===== src/Task.antt =====
-- The tasks of a change (internal/core/taskactivity.go, taskgraph.go, readiness.go, and the task
-- type of internal/plan/tasks.go).
pub mod Activity
pub mod Graph
pub mod Readiness
pub mod Transition
