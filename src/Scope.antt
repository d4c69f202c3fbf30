-- ===== src/Scope.antt =====
-- internal/core/scope.go: the check that an attempt changed only what it declared.
pub mod Defs
pub mod Authority
pub mod Accepts
pub mod Verdict
