-- ===== src/Approval.antt =====
-- Approval of a change (internal/core/approval.go and approval_status.go).
pub mod Types
