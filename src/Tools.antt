-- ===== src/Tools.antt =====
-- tools/src/cauco_tools: what the adapters return, and the data that they carry.
pub mod Value
pub mod Result
pub mod Models
pub mod Registry
