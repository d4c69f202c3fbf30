-- ===== src/Record.antt =====
-- internal/core/record: the append-only ledgers of history and evidence.
pub mod Types
pub mod Payloads
pub mod Defs
pub mod Replay
pub mod Append
pub mod Revisions
pub mod Envelope
pub mod Fits
pub mod Lines
pub mod Cut
pub mod Ledger
pub mod Appends
pub mod Extend
pub mod Failures
pub mod Counts
