-- ===== src/Gates.antt =====
-- internal/core/gates: the registry of the planning gates.
pub mod Defs
pub mod Evaluate
pub mod Passing
pub mod Complete
