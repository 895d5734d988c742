-- ===== src/Cluster/Service.antt =====
-- cluster/service.py: the membership table and the hash
-- ring of one node, as the control messages, the probes and the gossip change them. No method of the
-- table waits inside its lock, so tasks take turns only at the calls of peers: what runs between two of
-- them is one step, and what other tasks do during a call is a function on the state, an input. The answers
-- of the peers are inputs too, each record of theirs with the clock's reading when it is merged.
pub mod Probing
pub mod Control
pub mod Moves
pub mod InStep
pub mod Steps
pub mod Answers
pub mod Detection
use advanced_distributed_sys.Base.{
  ℕ, ◌+◌, ◌≡◌, Bool, true, false, not, ◌&&◌, List, [], ◌∷◌, Option, none, some, Result, ok, raise,
  Error, value_error, connection_error, timeout_error, circuit_open_error, deadline_exceeded,
  peer_transport_error, ◌==◌, if◌then◌else◌, filter, take, ◌>>=◌,
}
use advanced_distributed_sys.Base.Int.{ℤ, pos, negsuc}
use advanced_distributed_sys.Order.{Str, list_ord, nat_ord, same}
use advanced_distributed_sys.Cluster.Member.{alive, ClusterMember, SeedAddress, make_member}
use advanced_distributed_sys.Cluster.Membership.{
  MembershipTable, new_table, snapshot, alive_members, probe_candidates, merge, mark_suspect,
  advance_timeouts_and_purge,
}
use advanced_distributed_sys.Cluster.Ring.{Hashing, ConsistentHashRing, new_ring, rebuild}

-- the state of a node, with what it keeps of its settings
pub record ClusterService : Type 0 where
  pub local_member : ClusterMember
  pub membership : MembershipTable
  pub ring : ConsistentHashRing
  pub ring_version : ℤ
  pub bootstrap_seeds : List SeedAddress
  pub indirect_probe_count : ℕ

-- what the constructor reads of the settings
pub record Settings : Type 0 where
  pub node_id : Str
  pub host : Str
  pub advertise_host : Str
  pub suspicion_timeout : ℕ
  pub dead_retention : ℕ
  pub virtual_nodes : ℤ
  pub indirect_probe_count : ℕ
  pub cluster_seeds : List SeedAddress

-- `settings.advertise_host or settings.host`
unfoldable pub host_or : Str → Str → Str
host_or [] host = host
host_or (c ∷ cs) host = c ∷ cs

-- The constructor; the incarnation is the one that is given or a fresh one.
unfoldable pub new_service : Settings → ℤ → ℤ → Result ClusterService
unfolding make_member new_table new_ring host_or
new_service settings bound_port incarnation = do
  local ←
      make_member settings.node_id (host_or settings.advertise_host settings.host) bound_port alive
        incarnation
  table ← new_table local settings.suspicion_timeout settings.dead_retention
  ring ← new_ring settings.virtual_nodes
  ok (record {
    local_member = local;
    membership = table;
    ring = ring;
    ring_version = negsuc 0;
    bootstrap_seeds = settings.cluster_seeds;
    indirect_probe_count = settings.indirect_probe_count;
  })

-- `ConnectionError`, `TimeoutError` and `OSError`
unfoldable pub is_transport : Error → Bool
is_transport connection_error = true
is_transport timeout_error = true
is_transport peer_transport_error = true
is_transport circuit_open_error = true
is_transport deadline_exceeded = true
is_transport _ = false

-- members with the readings of the clock at their merging
abbrev pub Records : Type 0
Records = List (ℕ × ClusterMember)

pub record AckData : Type 0 where
  pub success : Bool
  pub target_node_id : Str
  pub gossip : Records

-- `try: ack = await … except (ConnectionError, TimeoutError, OSError): ack = None`
unfoldable pub caught : Result AckData → Result (Option AckData)
unfolding is_transport
caught (ok ack) = ok (some ack)
caught (raise e) = if is_transport e then ok none else raise e

-- `ack is not None and ack.success and ack.target_node_id == target.node_id`
unfoldable pub vouches : ClusterMember → Option AckData → Bool
vouches target none = false
vouches target (some ack) = ack.success && same ack.target_node_id target.node_id

abbrev pub gossip_of : Option AckData → Records
gossip_of none = []
gossip_of (some ack) = ack.gossip

-- `version == self._ring_version`
unfoldable pub is_version : ℤ → ℕ → Bool
is_version (pos n) version = version == n
is_version (negsuc n) version = false

module _ (h : Hashing) where
  unfoldable pub sync_ring : ClusterService → ClusterService
  unfolding is_version
  sync_ring s = if is_version s.ring_version s.membership.version then s else record s {
    ring = rebuild h (snapshot s.membership) s.ring;
    ring_version = pos s.membership.version;
  }

  -- `if await self.table.…: await self.on_membership_change()`
  unfoldable pub after_change : MembershipTable → Bool → ClusterService → ClusterService
  unfolding sync_ring
  after_change t true s = sync_ring (record s { membership = t })
  after_change t false s = record s { membership = t }

  -- the same for `merge`, which may raise
  unfoldable pub after_merge :
      MembershipTable × Result Bool → ClusterService → ClusterService × Result (Unit {0})
  unfolding after_change
  after_merge (t, ok changed) s = (after_change t changed s, ok tt)
  after_merge (t, raise e) s = (record s { membership = t }, raise e)

  unfoldable pub after_sync :
      MembershipTable × Result Bool → ClusterService → ClusterService × Result (Unit {0})
  unfolding sync_ring
  after_sync (t, ok _) s = (sync_ring (record s { membership = t }), ok tt)
  after_sync (t, raise e) s = (record s { membership = t }, raise e)

  -- `await self.membership.merge(…); await self.sync_ring()`
  unfoldable pub merge_and_sync : Records → ClusterService → ClusterService × Result (Unit {0})
  unfolding after_sync
  merge_and_sync records s = after_sync (merge records s.membership) s
