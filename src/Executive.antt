-- ===== src/Executive.antt =====
-- core/src/cauco_core/executive: which step of the workflow may come next.
pub mod Models
pub mod Service
pub mod Gates
