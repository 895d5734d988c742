-- ===== src/Replication/Outbox/Capacity.antt =====
-- The bound of the outbox: whatever the steps, it holds at most its capacity of pairs.
use advanced_distributed_sys.Base.{◌≤◌, ◌≡◌, Bool, Result, ok, raise, length}
use advanced_distributed_sys.Order.{list_ord, nat_ord, pair_ord}
use advanced_distributed_sys.Replication.Outbox.{ReplicationOutbox}
use advanced_distributed_sys.Replication.Outbox.Ownership.{Entries}

-- a pair that is published is written in place
abbrev SameLength : Entries → Result (Entries × Bool) → Type 0
SameLength m (raise e) = Unit {0}
SameLength m (ok (m', q)) = length m' ≡ length m

-- at most the capacity, which a step does not change
abbrev pub Bounded : ReplicationOutbox → ReplicationOutbox → Type 0
Bounded o o' = (length o'.pending ≤ o'.capacity) × (o'.capacity ≡ o.capacity)
