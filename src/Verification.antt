-- ===== src/Verification.antt =====
-- The verification of what an execution did.
pub mod Models
pub mod Service
pub mod Evidence
pub mod Store
