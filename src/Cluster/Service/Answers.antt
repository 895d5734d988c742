-- ===== src/Cluster/Service/Answers.antt =====
-- What a node answers to a control message.
use advanced_distributed_sys.Base.{◌≡◌, false, List, Result, ok, raise}
use advanced_distributed_sys.Cluster.Member.{ClusterMember}
use advanced_distributed_sys.Cluster.Membership.{snapshot}
use advanced_distributed_sys.Cluster.Ring.{Hashing}
use advanced_distributed_sys.Cluster.Service.{ClusterService, is_transport}
use advanced_distributed_sys.Cluster.Service.Control.{ControlReply, join_response, ack}
use advanced_distributed_sys.Cluster.Service.InStep.{InStep}

abbrev pub members_of : ControlReply → List ClusterMember
members_of (join_response members) = members
members_of (ack success target members) = members

-- a reply that lists the members of the table as it is left, or an exception that is none of the transport
abbrev pub Tells : ClusterService × Result ControlReply → Type 0
Tells (s, ok reply) = members_of reply ≡ snapshot s.membership
Tells (s, raise e) = is_transport e ≡ false

abbrev Succeeds : {A : Type 0} → Result A → Type 0
Succeeds (ok x) = Unit {0}
Succeeds (raise e) = ⊥

module _ (h : Hashing) where
  abbrev pub Replies : ClusterService × Result ControlReply → Type 0
  Replies r = InStep h r.0 × Tells r
