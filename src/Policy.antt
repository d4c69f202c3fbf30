-- ===== src/Policy.antt =====
-- internal/core/policy.go: the default and the production policy.
pub mod Defs
pub mod Laws
