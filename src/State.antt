-- ===== src/State.antt =====
-- internal/core/persist and internal/core/state: the state file of a change.
pub mod Replace
pub mod Tokens
pub mod Json
pub mod Defs
pub mod Laws
