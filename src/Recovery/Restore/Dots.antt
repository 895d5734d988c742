-- ===== src/Recovery/Restore/Dots.antt =====
-- A dot that a persisted write has used is not handed out again, even after a crash.
use advanced_distributed_sys.Base.{Option, some}
use advanced_distributed_sys.Order.{Str, list_ord, nat_ord}
use advanced_distributed_sys.Sorted.{find}
use advanced_distributed_sys.Causal.Version
use advanced_distributed_sys.Causal.Version.{VersionVector}
use advanced_distributed_sys.Causal.Clock.{CausalAllocation, new_allocation}
use advanced_distributed_sys.Storage.Entry.{StoredCrdtEntry}
use advanced_distributed_sys.Storage.Entry.Merging
use advanced_distributed_sys.Storage.Store
use advanced_distributed_sys.Persistence.Durable.{DurableCrdtStore}

-- the allocation of a local write
abbrev pub write_allocation :
    Str → (Option StoredCrdtEntry → VersionVector) → DurableCrdtStore → CausalAllocation
write_allocation key seen s = new_allocation s.clock (some (seen (find key s.memory.entries)))
