-- ===== src/Task/Graph.antt =====
-- internal/core/taskgraph.go: the dependency graph of the canonical tasks.
pub mod Defs
pub mod Links
pub mod Kahn
pub mod Order
pub mod Build
pub mod Sound
pub mod Acyclic
pub mod Waves
pub mod Levels
