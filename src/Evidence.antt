-- ===== src/Evidence.antt =====
-- internal/core/evidence: the proof that a task's checks ran and passed.
pub mod Defs
pub mod Production
pub mod Ledger
pub mod Proof
pub mod Checks
pub mod Missing
pub mod Latest
pub mod Recorded
