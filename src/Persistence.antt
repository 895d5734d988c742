-- ===== src/Persistence.antt =====
-- persistence/: the durable state of a node, its repository, and the store that persists before it
-- changes its memory.
pub mod Models
pub mod Repository
pub mod Durable
