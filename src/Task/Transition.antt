-- ===== src/Task/Transition.antt =====
-- internal/core/tasktransition.go: the change of a task's activity.
pub mod Types
pub mod Defs
pub mod Run
pub mod Follows
pub mod Admitted
pub mod Performed
pub mod Recovers
pub mod Resumed
