-- ===== src/Cluster/Router.antt =====
-- cluster/cluster_router.py: the routing of a keyed task over the candidates of its key. What the local
-- executor and each peer answer, and whether the deadline has passed, are arguments, read at the
-- candidate's turn.
pub mod Outcome
use advanced_distributed_sys.Base.{
  ℕ, zero, suc, ◌+◌, ◌≡◌, Bool, true, false, ◌||◌, List, [], ◌∷◌, ◌++◌, Result, ok, raise, Error,
  deadline_exceeded, local_overloaded, peer_unavailable, peer_transport_error, circuit_open_error,
  peer_application_error, ◌==◌, if◌then◌else◌, ◌>>=◌,
}
use advanced_distributed_sys.Order.{Str, list_ord, nat_ord, same}
use advanced_distributed_sys.Cluster.Member.{ClusterMember}
use advanced_distributed_sys.Cluster.Ring.{Hashing, ConsistentHashRing, candidates}

-- `messages_pb2.OVERLOADED` and `RATE_LIMITED`
abbrev pub overloaded_code : ℕ
overloaded_code = 5

abbrev pub rate_limited_code : ℕ
rate_limited_code = 6

-- the errors of `execute_local` that the loop goes on from
unfoldable pub local_retryable : Error → Bool
local_retryable local_overloaded = true
local_retryable _ = false

-- the errors of `forward_task` that the loop goes on from
unfoldable pub peer_retryable : Error → Bool
peer_retryable peer_transport_error = true
peer_retryable circuit_open_error = true
peer_retryable (peer_application_error code) =
    (code == overloaded_code) || (code == rate_limited_code)
peer_retryable _ = false

-- the exceptions of a candidate, by where it runs
unfoldable pub retryable : Str → ClusterMember → Error → Bool
unfolding local_retryable peer_retryable
retryable local_node_id m e =
    if same m.node_id local_node_id then local_retryable e else peer_retryable e

-- What the calls find: whether the deadline has expired before the turn of a candidate, and how the
-- call that is made to it ends.
pub record World (A : Type 0) : Type 0 where
  pub expired : ClusterMember → Bool
  pub answer : ClusterMember → Result A

-- the calls that were made, and how the routing ends
abbrev pub Routed : Type 0 → Type 0
Routed A = List ClusterMember × Result A

module _ {A : Type 0} (local_node_id : Str) where
  -- the loop goes on from the candidate, or returns, or raises
  unfoldable pub after_call : ClusterMember → Result A → Routed A → Routed A
  unfolding retryable
  after_call m (ok a) later = (m ∷ [], ok a)
  after_call m (raise e) later =
      if retryable local_node_id m e then (m ∷ later.0, later.1) else (m ∷ [], raise e)

  -- both of the exceptions behind the loop are a `PeerUnavailableError`
  unfoldable pub route_loop : World A → List ClusterMember → Routed A
  unfolding after_call
  route_loop w [] = ([], raise peer_unavailable)
  route_loop w (m ∷ ms) =
      let later = route_loop w ms in
      if w.expired m then ([], raise deadline_exceeded) else after_call m (w.answer m) later

  unfoldable pub execute : Hashing → ConsistentHashRing → Str → World A → Routed A
  unfolding route_loop
  execute h ring routing_key w = elim (candidates h routing_key ring) [
    | raise e ↦ ([], raise e)
    | ok ms ↦ route_loop w ms
  ]
