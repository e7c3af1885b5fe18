-- ===== src/Agents.antt =====
-- The plans of the agents.
pub mod Bindings
pub mod Models
