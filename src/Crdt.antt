-- ===== src/Crdt.antt =====
-- The state-based CRDTs (src/distsys/crdt).
pub mod Semilattice
pub mod Convergence
pub mod GCounter
pub mod PnCounter
pub mod OrSet
pub mod MvRegister
