-- ===== src/Plan.antt =====
-- The parsed plan (internal/plan): what the other parts read of it.
pub mod Model
