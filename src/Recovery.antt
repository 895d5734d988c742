-- ===== src/Recovery.antt =====
-- recovery/: what a node does when it starts again.
pub mod Restore
