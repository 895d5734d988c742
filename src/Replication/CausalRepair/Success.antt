-- ===== src/Replication/CausalRepair/Success.antt =====
-- When a causal repair succeeds.
use advanced_distributed_sys.Base.{Result, ok, raise}
use advanced_distributed_sys.Order.{list_ord, nat_ord}
use advanced_distributed_sys.Causal.Version
use advanced_distributed_sys.Causal.Version.{VersionVector}
use advanced_distributed_sys.Causal.Version.Lattice
use advanced_distributed_sys.Causal.Version.Lattice.{◌⊑◌, merge-least_iff}
use advanced_distributed_sys.Storage.Entry.Merging
use advanced_distributed_sys.Storage.Store.{CrdtStore}
use advanced_distributed_sys.Storage.Store.Delivery
use advanced_distributed_sys.Replication.CausalRepair.{CausalRepairResult, Merged}

-- a version is given, and it knows `u`
abbrev Gives : VersionVector → CrdtStore × Result VersionVector → Type 0
Gives u (s, raise e) = ⊥
Gives u (s, ok version) = u ⊑ version

-- nothing was raised
abbrev pub Succeeds : CrdtStore × Result CausalRepairResult → Type 0
Succeeds (s, raise e) = ⊥
Succeeds (s, ok r) = Unit {0}

-- no entry that was fetched made the store raise
abbrev pub NoRaise : Merged → Type 0
NoRaise (s, raise e) = ⊥
NoRaise (s, ok x) = Unit {0}
