-- ===== src/Transaction.antt =====
-- internal/core/transaction: managed file writes that commit as one recoverable unit.
pub mod Types
pub mod Plan
pub mod Apply
pub mod Steps
pub mod Commit
pub mod Recover
pub mod Triples
pub mod Recoverable
pub mod Outputs
pub mod Turn
pub mod OldOrNew
pub mod Finishes
pub mod Staging
pub mod Current
pub mod Commits
pub mod Planned
pub mod Whole
