-- ===== src/Mutations.antt =====
-- The previews of mutations, and their confirmation.
pub mod Models
pub mod Store
pub mod Lifecycle
pub mod Calls
pub mod SingleUse
