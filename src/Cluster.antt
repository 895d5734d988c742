-- ===== src/Cluster.antt =====
-- Cluster membership (src/distsys/cluster).
pub mod Member
pub mod Membership
pub mod Ring
pub mod Service
pub mod Router
