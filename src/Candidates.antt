-- ===== src/Candidates.antt =====
-- Lessons that a human may let into the memory.
pub mod Models
pub mod Store
pub mod Review
