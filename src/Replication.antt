-- ===== src/Replication.antt =====
-- The replication of entries to peers (src/distsys/replication).
pub mod Outbox
pub mod Digest
pub mod CausalRepair
