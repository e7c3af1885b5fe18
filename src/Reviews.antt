-- ===== src/Reviews.antt =====
-- The human review of a plan.
pub mod Models
pub mod Payload
pub mod Store
