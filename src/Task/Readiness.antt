-- ===== src/Task/Readiness.antt =====
-- internal/core/readiness.go: which tasks may start, and what blocks the others.
pub mod Defs
pub mod Rows
pub mod Model
pub mod Frontier
pub mod Progress
pub mod Retry
pub mod Blockers
