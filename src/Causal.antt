-- ===== src/Causal.antt =====
-- The causal primitives (src/distsys/causal): actors and dots, version vectors, the clock, tokens.
pub mod Actor
pub mod Version
pub mod Clock
