-- ===== src/Storage.antt =====
-- The replicated entries and their store (src/distsys/storage).
pub mod Entry
pub mod Store
