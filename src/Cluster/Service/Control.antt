-- ===== src/Cluster/Service/Control.antt =====
-- cluster/service.py: joining a cluster through its seeds, and the answers to control messages. The payloads
-- are taken as decoded.
use advanced_distributed_sys.Base.{
  ℕ, Bool, true, false, not, ◌&&◌, List, [], ◌∷◌, Result, ok, raise, value_error, connection_error,
  ◌==◌, if◌then◌else◌, filter,
}
use advanced_distributed_sys.Order.{Str, list_ord, nat_ord, same}
use advanced_distributed_sys.Cluster.Member.{ClusterMember, SeedAddress}
use advanced_distributed_sys.Cluster.Membership.{snapshot, merge}
use advanced_distributed_sys.Cluster.Ring.{Hashing}
use advanced_distributed_sys.Cluster.Service.{
  ClusterService, Records, AckData, is_transport, caught, vouches, gossip_of, sync_ring,
  after_merge, merge_and_sync,
}

-- what a node finds when it joins: the answers of the seeds, and what other tasks do meanwhile
pub record Joining : Type 0 where
  pub join : SeedAddress → ClusterMember → Result Records
  pub during : SeedAddress → ClusterService → ClusterService

-- the seeds that are not this node
unfoldable pub other_seeds : ClusterService → List SeedAddress
other_seeds s =
    filter (λ seed. not (same seed.host s.local_member.host && (seed.port == s.local_member.port)))
      s.bootstrap_seeds

-- a control message with its decoded payload
pub data ControlMessage : Type 0 where
  join_request : ℕ × ClusterMember → ControlMessage
  ping gossip : Records → ControlMessage
  ping_req : ClusterMember → Records → ControlMessage
  unsupported : ControlMessage

pub data ControlReply : Type 0 where
  join_response : List ClusterMember → ControlReply
  ack : Bool → Str → List ClusterMember → ControlReply

-- the ping that a request asks for, and what other tasks do during it
pub record Pinging : Type 0 where
  pub ping_target : ClusterMember → List ClusterMember → Result AckData
  pub during_ping : ClusterService → ClusterService

-- what follows a call that may raise, with the state that it leaves
abbrev pub with_state :
    {A B : Type 0}
    → ClusterService × Result A
    → (ClusterService → ClusterService × Result B)
    → ClusterService × Result B
with_state (s, raise e) next = (s, raise e)
with_state (s, ok _) next = next s

module _ (h : Hashing) where
  -- the loop over the seeds; the exception behind it is a `ConnectionError`
  unfoldable pub join_loop :
      Joining → List SeedAddress → ClusterService → ClusterService × Result (Unit {0})
  unfolding is_transport merge_and_sync
  join_loop w [] s = (s, raise connection_error)
  join_loop w (seed ∷ seeds) s =
      let s' = w.during seed s in
      let rest = join_loop w seeds s' in
      elim (w.join seed s.local_member) [
        | ok records ↦ merge_and_sync h records s'
        | raise e ↦ if is_transport e then rest else (s', raise e)
      ]

  unfoldable pub bootstrap : Joining → ClusterService → ClusterService × Result (Unit {0})
  unfolding sync_ring other_seeds join_loop
  bootstrap w s =
      let s' = sync_ring h s in
      elim s'.bootstrap_seeds [
        | [] ↦ (s', ok tt)
        | _ ∷ _ ↦ elim (other_seeds s') [
          | [] ↦ (s', raise connection_error)
          | seed ∷ seeds ↦ join_loop w (seed ∷ seeds) s'
        ]
      ]

  -- behind the ping of a target that another node cannot reach
  unfoldable pub relayed :
      ClusterMember → Result AckData → ClusterService → ClusterService × Result ControlReply
  unfolding caught vouches after_merge
  relayed target answer s = elim (caught answer) [
    | raise e ↦ (s, raise e)
    | ok found ↦
        if vouches target found
        then with_state (after_merge h (merge (gossip_of found) s.membership) s)
            (λ s'. (s', ok (ack true target.node_id (snapshot s'.membership))))
        else (s, ok (ack false target.node_id (snapshot s.membership)))
  ]

  unfoldable pub handle_control :
      Pinging → ControlMessage → ClusterService → ClusterService × Result ControlReply
  unfolding merge_and_sync relayed
  handle_control w (join_request joining) s =
      with_state (merge_and_sync h (joining ∷ []) s)
        (λ s'. (s', ok (join_response (snapshot s'.membership))))
  handle_control w (ping incoming) s =
      with_state (merge_and_sync h incoming s)
        (λ s'. (s', ok (ack true s'.local_member.node_id (snapshot s'.membership))))
  handle_control w (gossip incoming) s =
      with_state (merge_and_sync h incoming s)
        (λ s'. (s', ok (ack true s'.local_member.node_id (snapshot s'.membership))))
  handle_control w (ping_req target incoming) s =
      with_state (merge_and_sync h incoming s)
        (λ s'. relayed target (w.ping_target target (snapshot s'.membership)) (w.during_ping s'))
  handle_control w unsupported s = (s, raise value_error)
