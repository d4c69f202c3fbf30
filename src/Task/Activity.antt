-- ===== src/Task/Activity.antt =====
-- internal/core/taskactivity.go: the definitions, and what is proved of them.
pub mod Defs
pub mod Edges
pub mod Laws
